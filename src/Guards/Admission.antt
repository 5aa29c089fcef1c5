-- ===== src/Guards/Admission.antt =====
-- Who passes the guards.
use salepoint_backend.Prelude.{
  ℕ, ◌≡◌, ◌↔◌, Bool, true, false, ◌||◌, Option, none, some, inl, inr, arith, Bool-cases,
}
use salepoint_backend.Exec.{ok}
use salepoint_backend.Accounts.{
  SubscriptionStatus, trial, active, expired, suspended, super_admin, Shop, Accounts, shop_of,
}
use salepoint_backend.Auth.{JwtPayload}
use salepoint_backend.Guards.{
  subscription_guard, admit_status, admit_shop, admit_id, user_has, shop_id_of,
}
use salepoint_backend.Shops.{is_running}

abbrev pub runs : Option Shop → Bool
runs none = false
runs (some s) = is_running s.subscription_status

abbrev pub runs_in : Option ℕ → Accounts → Bool
runs_in none a = false
runs_in (some i) a = runs (shop_of i a)

admit_status_iff : (s : SubscriptionStatus) → (admit_status s ≡ ok true) ↔ (is_running s ≡ true)
unfolding admit_status
admit_status_iff trial = ground arith
admit_status_iff active = ground arith
admit_status_iff expired = ground arith
admit_status_iff suspended = ground arith

admit_shop_iff : (o : Option Shop) → (admit_shop o ≡ ok true) ↔ (runs o ≡ true)
admit_shop_iff none = ground arith
admit_shop_iff (some s) = admit_status_iff s.subscription_status

admit_id_iff : (i : Option ℕ) (a : Accounts) → (admit_id i a ≡ ok true) ↔ (runs_in i a ≡ true)
admit_id_iff none a = ground arith
admit_id_iff (some i) a = admit_shop_iff (shop_of i a)

-- SubscriptionGuard lets a request through exactly when its token is a SUPER_ADMIN's, or names a shop that is there and on a trial or an active subscription.
subscription_guard_iff :
    (user : Option JwtPayload) (a : Accounts)
    → (subscription_guard user a ≡ ok true)
      ↔ (user_has user super_admin || runs_in (shop_id_of user) a ≡ true)
unfolding subscription_guard
subscription_guard_iff user a = elim (Bool-cases (user_has user super_admin)) [
  | inl admin ↦ rw admin (ground arith)
  | inr other ↦ rw other (admit_id_iff (shop_id_of user) a)
]
