-- ===== src/Auth/Login.antt =====
-- `login` of modules/auth/auth.service.ts, and what it answers.
use salepoint_backend.Prelude.{
  ℕ, ◌≡◌, ◌⊎◌, refl, sym, ap, arith, inl, inr, Bool-cases, Bool, true, false, not, ◌&&◌, Option,
  none, some, List, [], ◌∷◌, String, ◌==◌, if◌then◌else◌, find_first, map, filter_by, all_by,
}
use salepoint_backend.Exec.{
  Exec, Result, resume_ok, ok, err, pure, raise, gets, or_raise, raise_if, modify, ◌>>=◌, ◌>>◌,
  invalid_credentials, no_shop_assigned, internal_error,
}
use salepoint_backend.Users.{update_last_login}
use salepoint_backend.Accounts.{
  super_admin, cashier, has_role, same_role, User, SubscriptionStatus, ShopUser, Accounts,
  fresh_key,
}
use salepoint_backend.Auth.{
  JwtPayload, TokensDto, pre_auth, issue_tokens, enter_shop, status_of, assert_subscription_active,
}

-- The answer of `login`: tokens, or a pre-auth payload with the shops to choose from.
pub data LoginReply : Type 0 where
  logged_in : TokensDto → LoginReply
  choose_shop : JwtPayload → List ℕ → LoginReply

-- The shops of the memberships, in their order.
abbrev pub shop_ids : List ShopUser → List ℕ
shop_ids members = map (λ su. su.shop_id) members

-- `shopUsers.every((su) => su.roles.every((r) => r === UserRole.CASHIER))`
abbrev pub is_cashier_only : List ShopUser → Bool
is_cashier_only members = all_by (λ su. all_by (same_role cashier) su.roles) members

-- `signPreAuthToken`
unfoldable pub pre_auth_payload : User → ℕ → JwtPayload
pre_auth_payload user session = record {
  sub = user.id;
  email = user.email;
  roles = user.roles;
  session_id = session;
  shop_id = none;
  kind = pre_auth;
}

abbrev is_loaded : Option SubscriptionStatus → Bool
is_loaded none = false
is_loaded (some status) = true

-- The summaries of the shops read each shop's row.
unfoldable pub choose : User → List ShopUser → Exec Accounts LoginReply
unfolding pre_auth_payload
choose user members = do
  loaded ← gets (λ a. all_by (λ su. is_loaded (status_of su a)) members)
  raise_if (not loaded) internal_error
  session ← fresh_key
  pure (choose_shop (pre_auth_payload user session) (shop_ids members))

-- A cashier of one shop enters it at once.
unfoldable pub enter_directly : (ℕ → ℕ) → User → String → ShopUser → ℕ → Exec Accounts LoginReply
unfolding enter_shop assert_subscription_active
enter_directly hash user client_ip su now = do
  status ← or_raise (← gets (status_of su)) internal_error
  assert_subscription_active status
  tokens ← enter_shop hash user client_ip su now
  pure (logged_in tokens)

unfoldable pub login_member : (ℕ → ℕ) → User → String → ℕ → List ShopUser → Exec Accounts LoginReply
unfolding choose enter_directly
login_member hash user client_ip now [] = raise no_shop_assigned
login_member hash user client_ip now (su ∷ []) =
    if is_cashier_only (su ∷ [])
    then enter_directly hash user client_ip su now
    else choose user (su ∷ [])
login_member hash user client_ip now (su ∷ tu ∷ rest) = choose user (su ∷ tu ∷ rest)

-- SUPER_ADMIN skips the selection of a shop.
unfoldable pub login_admin : (ℕ → ℕ) → User → String → ℕ → Exec Accounts LoginReply
unfolding issue_tokens
login_admin hash user client_ip now = do
  tokens ← issue_tokens hash user client_ip none none none now
  modify (update_last_login user.id now)
  pure (logged_in tokens)

-- `compare` is `bcrypt.compare` of a password with a hash.
unfoldable pub validate_credentials : (ℕ → ℕ → Bool) → ℕ → ℕ → Accounts → Option User
validate_credentials compare email password a =
    elim (find_first (λ u. u.email == email && not u.deleted) a.users) [
      | none ↦ none
      | some u ↦ if u.is_active && compare password u.password_hash then some u else none
    ]

unfoldable pub login : (ℕ → ℕ → Bool) → (ℕ → ℕ) → ℕ → ℕ → String → ℕ → Exec Accounts LoginReply
unfolding validate_credentials login_admin login_member
login compare hash email password client_ip now = do
  user ← or_raise (← gets (validate_credentials compare email password)) invalid_credentials
  members ← gets (λ a. filter_by (λ su. su.user_id == user.id && su.is_active) a.shop_users)
  if has_role super_admin user.roles
      then login_admin hash user client_ip now
      else login_member hash user client_ip now members

abbrev members_of : User → Accounts → List ShopUser
members_of user a = filter_by (λ su. su.user_id == user.id && su.is_active) a.shop_users

abbrev scope_of : Result LoginReply → Option ℕ
scope_of (ok (logged_in t)) = t.access_token.shop_id
scope_of (ok (choose_shop p shops)) = none
scope_of (err e) = none

choose_no_tokens :
    (user : User) (members : List ShopUser) (t : TokensDto) (a : Accounts)
    → (choose user members a).0 ≡ ok (logged_in t)
    → ⊥
unfolding choose
choose_no_tokens user members t a done =
    elim (Bool-cases (all_by (λ su. is_loaded (status_of su a)) members)) [
      | inl all ↦ absurd (ground (arith, rw all at done))
      | inr missing ↦ absurd (ground (arith, rw missing at done))
    ]

direct_scope :
    (hash : ℕ → ℕ) (user : User) (ip : String) (su : ShopUser) (now : ℕ) (t : TokensDto)
    (a : Accounts)
    → (enter_directly hash user ip su now a).0 ≡ ok (logged_in t)
    → t.access_token.shop_id ≡ some su.shop_id
unfolding enter_directly enter_shop issue_tokens
direct_scope hash user ip su now t a done =
    let (status, loaded, d1) =
      resume_ok (or_raise (status_of su a) internal_error a) _ (logged_in t) done in
    let (u, paid, d2) = resume_ok (assert_subscription_active status _) _ (logged_in t) d1 in
    sym (ap scope_of d2)

member_scope :
    (hash : ℕ → ℕ) (user : User) (ip : String) (now : ℕ) (members : List ShopUser) (t : TokensDto)
    (a : Accounts)
    → (login_member hash user ip now members a).0 ≡ ok (logged_in t)
    → (su : ShopUser) × (members ≡ su ∷ [])
      × (is_cashier_only (su ∷ []) ≡ true)
      × (t.access_token.shop_id ≡ some su.shop_id)
unfolding login_member
member_scope hash user ip now [] t a done = absurd (ground (arith, done))
member_scope hash user ip now (su ∷ tu ∷ rest) t a done =
    absurd (choose_no_tokens user (su ∷ tu ∷ rest) t a done)
member_scope hash user ip now (su ∷ []) t a done = elim (Bool-cases (is_cashier_only (su ∷ []))) [
  | inl only ↦ (su, refl, only, direct_scope hash user ip su now t a (rw only at done))
  | inr other ↦ absurd (choose_no_tokens user (su ∷ []) t a (rw other at done))
]

-- Where `login` answers with tokens, the user is a SUPER_ADMIN and the tokens are of no shop, or the user has one active membership, with no role but that of a cashier, and the tokens are of its shop.
pub login_scope :
    (compare : ℕ → ℕ → Bool) (hash : ℕ → ℕ) (email password now : ℕ) (ip : String) (user : User)
    (t : TokensDto) (a : Accounts)
    → validate_credentials compare email password a ≡ some user
    → (login compare hash email password ip now a).0 ≡ ok (logged_in t)
    → ((has_role super_admin user.roles ≡ true) × (t.access_token.shop_id ≡ none))
      ⊎ ((su : ShopUser) × (members_of user a ≡ su ∷ [])
          × (is_cashier_only (su ∷ []) ≡ true)
          × (t.access_token.shop_id ≡ some su.shop_id))
unfolding login login_admin issue_tokens
login_scope compare hash email password now ip user t a valid done =
    let done1 = rw valid at done in
    elim (Bool-cases (has_role super_admin user.roles)) [
      | inl admin ↦ inl (admin, sym (ap scope_of (rw admin at done1)))
      | inr member ↦
          inr (member_scope hash user ip now (members_of user a) t a (rw member at done1))
    ]
