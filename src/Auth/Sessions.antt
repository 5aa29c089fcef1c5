-- ===== src/Auth/Sessions.antt =====
-- What the tokens of a user are after a selection of a shop and after a refresh.
use salepoint_backend.Prelude.{
  ℕ, ◌+◌, ◌==◌, ==→eq, ==_refl, ==_ne, ◌≡◌, ◌≢◌, ◌⊎◌, refl, sym, ◌∙◌, subst, ap, Bool, true, false,
  not, ◌&&◌, if◌then◌else◌, Option, none, some, List, [], ◌∷◌, map, String, arith, inl, inr,
  Bool-cases, Option-cases, find_first, find_first-holds, count_by,
}
use salepoint_backend.Prelude.Table.{
  IsBelow, IsBelow-mono, find_by_id, find_by_id-IsBelow, save, find_first-save_other_new,
}
use salepoint_backend.Exec.{
  ok, err, Result, Error, subscription_expired, shop_suspended, refresh_invalid,
}
use salepoint_backend.Accounts.{
  User, UserRole, SubscriptionStatus, RefreshToken, ShopUser, Accounts, token_key, user_of,
  active_member_of,
}
use salepoint_backend.Auth.{
  TokensDto, JwtPayload, revoke_if, logout_all, new_token, issue_tokens, refresh, enter_shop,
  select_shop, pre_auth_user, status_of, assert_subscription_active,
}

abbrev pub is_live : Option ℕ → Bool
is_live none = true
is_live (some t) = false

abbrev pub is_session_of : ℕ → RefreshToken → Bool
is_session_of user t = t.user_id == user && is_live t.revoked_at

count-save_new :
    (p : RefreshToken → Bool) (m : RefreshToken) (xs : List RefreshToken)
    → find_by_id token_key m.id xs ≡ none
    → count_by p (save token_key m xs) ≡ count_by p xs + (if p m then 1 else 0)
count-save_new p m [] e = ground arith
count-save_new p m (x ∷ xs) e = ground (arith, count-save_new p m xs)

-- Revoking by a condition leaves none that is live under it.
none_live :
    (p : RefreshToken → Bool) (now : ℕ) (xs : List RefreshToken)
    → ((t : RefreshToken) → p (record t { revoked_at = some now }) ≡ p t)
    → count_by (λ t. p t && is_live t.revoked_at) (map (λ t. revoke_if (p t) now t) xs) ≡ 0
none_live p now [] same = refl
none_live p now (x ∷ xs) same = elim (Bool-cases (p x)) [
  | inl here ↦ rw here (rw (same x) (rw here (omega (arith, none_live p now xs same))))
  | inr other ↦ rw other (rw other (omega (arith, none_live p now xs same)))
]

map-IsBelow :
    (p : RefreshToken → Bool) (now n : ℕ) (xs : List RefreshToken)
    → IsBelow token_key n xs
    → IsBelow token_key n (map (λ t. revoke_if (p t) now t) xs)
map-IsBelow p now n [] h = tt
map-IsBelow p now n (x ∷ xs) h = elim (Bool-cases (p x)) [
  | inl here ↦ rw here (h.0, map-IsBelow p now n xs h.1)
  | inr other ↦ rw other (h.0, map-IsBelow p now n xs h.1)
]

abbrev refresh_token_of : Result TokensDto → ℕ
refresh_token_of (ok given) = given.refresh_token
refresh_token_of (err e) = 0

not_found :
    (hash : ℕ → ℕ) (v later : ℕ) (ip : String) (m : RefreshToken) (n : ℕ) (a : Accounts)
    → hash v ≢ v
    → m.token ≡ hash v
    → find_by_id token_key m.id a.tokens ≡ none
    → find_first (λ x. x.token == v) a.tokens ≡ none
    → (refresh hash v ip later (record a { tokens = save token_key m a.tokens; next_id = n })).0
      ≡ err refresh_invalid
unfolding refresh
not_found hash v later ip m n a changes token fresh unseen =
    rw
      (find_first-save_other_new token_key (λ x. x.token == v) m a.tokens fresh
          (rw token (==_ne (hash v) v changes))
        ∙ unseen)
      refl

-- A token that `issueTokens` has just given to a client is refused by `refresh`, where the hash changes every value, the token keys are below the next one and no older row holds the token as it was sent.
pub refresh_unmatched :
    (hash : ℕ → ℕ) (user : User) (ip : String) (shop : Option ℕ) (roles : Option (List UserRole))
    (now later : ℕ) (a : Accounts) (given : TokensDto)
    → ((v : ℕ) → hash v ≢ v)
    → IsBelow token_key a.next_id a.tokens
    → (issue_tokens hash user ip shop roles none now a).0 ≡ ok given
    → find_first (λ x. x.token == given.refresh_token) a.tokens ≡ none
    → (refresh hash given.refresh_token ip later
        (issue_tokens hash user ip shop roles none now a).1).0
      ≡ err refresh_invalid
unfolding issue_tokens new_token
refresh_unmatched hash user ip shop roles now later a given changes below issued unseen =
    let v = a.next_id + 1 + 1 in
    let k = a.next_id + 1 + 1 + 1 in
    let e : given.refresh_token ≡ v = sym (ap refresh_token_of issued) in
    let below' = IsBelow-mono token_key a.next_id k a.tokens (omega arith) below in
    rw e (
      not_found hash v later ip (new_token hash user ip shop a.next_id (a.next_id + 1) v now k)
        (k + 1) a (changes v) refl (find_by_id-IsBelow token_key k a.tokens below')
        (rw e at unseen))

-- Entering a shop ends every session of the user and begins one.
enter_shop_sessions :
    (hash : ℕ → ℕ) (user : User) (ip : String) (su : ShopUser) (now : ℕ) (a : Accounts)
    → IsBelow token_key a.next_id a.tokens
    → count_by (is_session_of user.id) (enter_shop hash user ip su now a).1.tokens ≡ 1
unfolding enter_shop issue_tokens new_token logout_all
enter_shop_sessions hash user ip su now a below =
    let k = a.next_id + 1 + 1 + 1 in
    let m =
      new_token hash user ip (some su.shop_id) a.next_id (a.next_id + 1) (a.next_id + 1 + 1) now
        k in
    let p = λ (t : RefreshToken). t.user_id == user.id in
    let below' =
      map-IsBelow p now k a.tokens
        (IsBelow-mono token_key a.next_id k a.tokens (omega arith) below) in
    rw
      (count-save_new (is_session_of user.id) m (map (λ t. revoke_if (p t) now t) a.tokens)
        (find_by_id-IsBelow token_key k (map (λ t. revoke_if (p t) now t) a.tokens) below'))
      (rw (none_live p now a.tokens (λ t. refl)) (rw (==_refl user.id) refl))

subscription_cases :
    (status : SubscriptionStatus) (a : Accounts)
    → (assert_subscription_active status a ≡ (ok tt, a))
      ⊎ ((e : Error) × (assert_subscription_active status a ≡ (err e, a)))
unfolding assert_subscription_active
subscription_cases SubscriptionStatus.trial a = inl refl
subscription_cases SubscriptionStatus.active a = inl refl
subscription_cases SubscriptionStatus.expired a = inr (subscription_expired, refl)
subscription_cases SubscriptionStatus.suspended a = inr (shop_suspended, refl)

-- In a table whose token keys are below the next one: where `selectShop` returns, the user whose pre-auth token it was has one live session, whatever sessions there were before.
pub select_shop_sessions :
    (hash : ℕ → ℕ) (shop now sub : ℕ) (payload : Option JwtPayload) (ip : String)
    (given : TokensDto) (a : Accounts)
    → IsBelow token_key a.next_id a.tokens
    → pre_auth_user payload ≡ some sub
    → (select_shop hash shop payload ip now a).0 ≡ ok given
    → count_by (is_session_of sub) (select_shop hash shop payload ip now a).1.tokens ≡ 1
unfolding select_shop
select_shop_sessions hash shop now sub payload ip given a below who done =
    let done1 = rw who at done in
    rw who (elim (Option-cases (active_member_of shop sub a)) [
      | inl stranger ↦ absurd (ground (arith, rw stranger at done1))
      | inr (su, member) ↦
          let done2 = rw member at done1 in
          rw member (elim (Option-cases (status_of su a)) [
            | inl gone ↦ absurd (ground (arith, rw gone at done2))
            | inr (status, running) ↦
                let done3 = rw running at done2 in
                rw running (elim (subscription_cases status a) [
                  | inr (e, stopped) ↦ absurd (ground (arith, rw stopped at done3))
                  | inl paid ↦
                      let done4 = rw paid at done3 in
                      rw paid (elim (Option-cases (user_of sub a)) [
                        | inl gone ↦ absurd (ground (arith, rw gone at done4))
                        | inr (user, known) ↦
                            let same : user.id ≡ sub = ==→eq user.id sub (
                              ground (
                                arith,
                                find_first-holds (λ u. u.id == sub && not u.deleted) a.users user
                                    known,
                              )) in
                            rw known (
                              subst
                                (λ k.
                                  count_by (is_session_of k)
                                    (enter_shop hash user ip su now a).1.tokens
                                  ≡ 1)
                                same (enter_shop_sessions hash user ip su now a below))
                      ])
                ])
          ])
    ])
