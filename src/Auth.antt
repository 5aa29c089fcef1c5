-- ===== src/Auth.antt =====
-- modules/auth/auth.service.ts. What the libraries make is given: `hash` is
-- `bcrypt.hash`, and the payload of a verified token is an argument. The signed access token is
-- its payload.
pub mod Login
pub mod Sessions
use salepoint_backend.Prelude.{
  ℕ, ◌+◌, Bool, true, false, not, ◌&&◌, ◌||◌, Option, none, some, List, [], ◌∷◌, String, ltb, ◌==◌,
  if◌then◌else◌, find_first, map, filter_by, all_by, length,
}
use salepoint_backend.Prelude.Table.{update_by_id, save, find_by_id}
use salepoint_backend.Exec.{
  Exec, ok, err, pure, raise, gets, or_raise, raise_if, modify, ◌>>=◌, ◌>>◌, invalid_credentials,
  no_shop_assigned, no_shop_access, shop_suspended, subscription_expired, refresh_invalid,
  token_reuse, shop_access_revoked, pre_auth_invalid, user_not_found, internal_error,
}
use salepoint_backend.Users.{update_last_login}
use salepoint_backend.Accounts.{
  UserRole, super_admin, cashier, has_role, same_role, User, SubscriptionStatus, expired, suspended,
  Shop, ShopUser, RefreshToken, Accounts, user_of, shop_of, active_member_of, fresh_key, token_key,
  user_key,
}

pub data TokenType : Type 0 where
  access pre_auth : TokenType

pub record JwtPayload : Type 0 where
  pub sub : ℕ
  pub email : ℕ
  pub roles : List UserRole
  pub session_id : ℕ
  pub shop_id : Option ℕ
  pub kind : TokenType

pub record TokensDto : Type 0 where
  pub access_token : JwtPayload
  pub refresh_token : ℕ
  pub expires_in : ℕ

-- `update(where, { revokedAt: new Date() })`: a token that is revoked already gets the new date.
abbrev pub revoke_if : Bool → ℕ → RefreshToken → RefreshToken
revoke_if b now t = if b then record t { revoked_at = some now } else t

abbrev pub revoke_where : (RefreshToken → Bool) → ℕ → Accounts → Accounts
revoke_where p now a = record a { tokens = map (λ t. revoke_if (p t) now t) a.tokens }

unfoldable pub logout : ℕ → ℕ → ℕ → Accounts → Accounts
logout user_id session_id = revoke_where (λ t. t.user_id == user_id && t.session_id == session_id)

unfoldable pub logout_all : ℕ → ℕ → Accounts → Accounts
logout_all user_id = revoke_where (λ t. t.user_id == user_id)

unfoldable pub revoke_family : ℕ → ℕ → Accounts → Accounts
revoke_family family_id = revoke_where (λ t. t.family_id == family_id)

-- A shop's status decides; EXPIRED is a 402.
unfoldable pub assert_subscription_active : {S : Type 0} → SubscriptionStatus → Exec S (Unit {0})
assert_subscription_active suspended = raise shop_suspended
assert_subscription_active expired = raise subscription_expired
assert_subscription_active _ = pure tt

-- `familyId ?? randomUUID()`
abbrev pub family_or_new : Option ℕ → Exec Accounts ℕ
family_or_new (some f) = pure f
family_or_new none = fresh_key

-- `shopRoles ?? [UserRole.CASHIER]`
abbrev pub or_cashier : Option (List UserRole) → List UserRole
or_cashier none = cashier ∷ []
or_cashier (some roles) = roles

abbrev pub roles_of : User → Option (List UserRole) → List UserRole
roles_of user shop_roles =
    if has_role super_admin user.roles then user.roles else or_cashier shop_roles

-- Seven days, in milliseconds.
abbrev pub week : ℕ
week = 604_800_000

abbrev pub revoke_one : ℕ → ℕ → Accounts → Accounts
revoke_one i now a = record a {
  tokens = update_by_id token_key i (λ t. record t { revoked_at = some now }) a.tokens;
}

-- `if (stored.shopId) …`: the roles in the shop as they are now.
unfoldable pub current_roles : RefreshToken → Option ℕ → ℕ → Exec Accounts (Option (List UserRole))
current_roles stored none now a = (ok none, a)
current_roles stored (some shop) now a = elim (active_member_of shop stored.user_id a) [
  | none ↦ (err shop_access_revoked, revoke_one stored.id now a)
  | some su ↦ (ok (some su.roles), a)
]

-- The subscription of a member's shop. A deleted shop or user is not loaded with the row that
-- refers to it, and reading it throws.
abbrev pub status_of : ShopUser → Accounts → Option SubscriptionStatus
status_of su a = elim (shop_of su.shop_id a) [ none ↦ none | some s ↦ some s.subscription_status ]

-- The payload that `verify` found in the pre-auth token, or nothing where it throws.
abbrev pub pre_auth_user : Option JwtPayload → Option ℕ
pre_auth_user none = none
pre_auth_user (some p) = elim p.kind [ access ↦ none | pre_auth ↦ some p.sub ]

module _ (hash : ℕ → ℕ) where
  -- `refreshTokenRepo.create(…)`
  unfoldable pub new_token : User → String → Option ℕ → ℕ → ℕ → ℕ → ℕ → ℕ → RefreshToken
  new_token user client_ip shop_id session family value now id = record {
    id = id;
    token = hash value;
    session_id = session;
    family_id = family;
    expires_at = now + week;
    revoked_at = none;
    client_ip = client_ip;
    shop_id = shop_id;
    user_id = user.id;
  }

  -- The new refresh token is a random UUID as well.
  unfoldable pub issue_tokens :
      User → String → Option ℕ → Option (List UserRole) → Option ℕ → ℕ → Exec Accounts TokensDto
  unfolding new_token
  issue_tokens user client_ip shop_id shop_roles family_id now = do
    session ← fresh_key
    family ← family_or_new family_id
    value ← fresh_key
    id ← fresh_key
    modify (λ a. record a {
      tokens =
          save token_key (new_token user client_ip shop_id session family value now id) a.tokens;
    })
    pure (record {
      access_token = record {
        sub = user.id;
        email = user.email;
        roles = roles_of user shop_roles;
        session_id = session;
        shop_id = shop_id;
        kind = access;
      };
      refresh_token = value;
      expires_in = 900;
    })

  -- The refresh: a revoked token revokes its family; else it is revoked and a token of the same
  -- family and shop follows it.
  unfoldable pub rotate : RefreshToken → String → ℕ → Exec Accounts TokensDto
  unfolding current_roles issue_tokens
  rotate stored client_ip now = do
    user ← or_raise (← gets (user_of stored.user_id)) internal_error
    roles ← current_roles stored stored.shop_id now
    modify (revoke_one stored.id now)
    issue_tokens user client_ip stored.shop_id roles (some stored.family_id) now

  -- `if (stored.revokedAt) …`
  unfoldable pub rotate_unless : Option ℕ → RefreshToken → String → ℕ → Exec Accounts TokensDto
  unfolding rotate revoke_family
  rotate_unless (some t) stored client_ip now a =
      (err token_reuse, revoke_family stored.family_id now a)
  rotate_unless none stored client_ip now a = rotate stored client_ip now a

  -- `where: { token: refreshToken }` compares the token as it was sent with the stored hash.
  unfoldable pub refresh : ℕ → String → ℕ → Exec Accounts TokensDto
  unfolding rotate_unless
  refresh refresh_token client_ip now = do
    stored ←
        or_raise (← gets (λ a. find_first (λ t. t.token == refresh_token) a.tokens)) refresh_invalid
    raise_if (ltb stored.expires_at now) refresh_invalid
    rotate_unless stored.revoked_at stored client_ip now

  -- Every session of the user ends, and one begins in the shop. The hint about an open shift is
  -- left out.
  unfoldable pub enter_shop : User → String → ShopUser → ℕ → Exec Accounts TokensDto
  unfolding logout_all issue_tokens
  enter_shop user client_ip su now = do
    modify (logout_all user.id now)
    tokens ← issue_tokens user client_ip (some su.shop_id) (some su.roles) none now
    modify (update_last_login user.id now)
    pure tokens

  unfoldable pub select_shop : ℕ → Option JwtPayload → String → ℕ → Exec Accounts TokensDto
  unfolding enter_shop assert_subscription_active
  select_shop shop_id payload client_ip now = do
    sub ← or_raise (pre_auth_user payload) pre_auth_invalid
    su ← or_raise (← gets (active_member_of shop_id sub)) no_shop_access
    status ← or_raise (← gets (status_of su)) internal_error
    assert_subscription_active status
    user ← or_raise (← gets (user_of sub)) user_not_found
    enter_shop user client_ip su now

  unfoldable pub switch_shop : JwtPayload → ℕ → String → ℕ → Exec Accounts TokensDto
  unfolding logout issue_tokens assert_subscription_active
  switch_shop current shop_id client_ip now = do
    su ← or_raise (← gets (active_member_of shop_id current.sub)) no_shop_access
    status ← or_raise (← gets (status_of su)) internal_error
    assert_subscription_active status
    modify (logout current.sub current.session_id now)
    user ← or_raise (← gets (user_of current.sub)) user_not_found
    issue_tokens user client_ip (some shop_id) (some su.roles) none now
