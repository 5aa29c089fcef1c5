-- ===== src/Exec.antt =====
-- A service method as an action on a state of its own: it returns, or it throws an HTTP exception
-- (common/filters/http-exception.filter.ts turns that into the status of the reply).
use salepoint_backend.Prelude.{
  ◌≡◌, refl, ◌⊎◌, inl, inr, Bool, true, false, Option, none, some, ℕ, arith,
}

-- One constructor for each exception that a modelled method throws.
pub data Error : Type 0 where
  product_not_found product_inactive whole_quantity_required : Error
  stock_record_not_found insufficient_stock insufficient_storage : Error
  payment_exceeds_total customer_required order_not_found cannot_cancel not_confirmed : Error
  only_paid_returned product_not_in_order return_exceeds_ordered not_printable : Error
  debt_not_found debt_already_paid amount_exceeds_debt : Error
  order_already_paid order_is_cancelled tendered_too_low payment_not_found : Error
  only_completed_refunded : Error
  shift_already_open shift_not_found not_own_shift shift_already_closed : Error
  invalid_credentials no_shop_assigned no_shop_access shop_suspended : Error
  subscription_expired refresh_invalid token_reuse shop_access_revoked pre_auth_invalid : Error
  user_not_found shop_not_found seat_limit_reached already_assigned : Error
  shops_not_allowed shop_limit_reached not_owner not_assigned : Error
  no_shop_context wrong_client token_invalid : Error
  no_outstanding_debts no_phone shop_scope_required logs_not_allowed : Error
  sku_exists foreign_key_of_image uploaded_file_not_found : Error
  customer_not_found email_taken : Error
  internal_error : Error

-- `exception.getStatus()`: 400 for BadRequestException, 401 for UnauthorizedException, 402 for
-- PAYMENT_REQUIRED, 403 for ForbiddenException, 404 for NotFoundException, 409 for
-- ConflictException, and 500 for any other throw.
pub status : Error → ℕ
status internal_error = 500
status product_not_found = 404
status stock_record_not_found = 404
status order_not_found = 404
status debt_not_found = 404
status payment_not_found = 404
status shift_not_found = 404
status user_not_found = 404
status shop_not_found = 404
status not_assigned = 404
status no_outstanding_debts = 404
status uploaded_file_not_found = 404
status customer_not_found = 404
status invalid_credentials = 401
status refresh_invalid = 401
status shop_access_revoked = 401
status pre_auth_invalid = 401
status token_invalid = 401
status subscription_expired = 402
status no_shop_assigned = 403
status no_shop_access = 403
status shop_suspended = 403
status token_reuse = 403
status seat_limit_reached = 403
status shops_not_allowed = 403
status shop_limit_reached = 403
status not_owner = 403
status no_shop_context = 403
status wrong_client = 403
status foreign_key_of_image = 403
status already_assigned = 409
status sku_exists = 409
status email_taken = 409
status _ = 400

pub data Result (A : Type 0) : Type 0 where
  ok : A → Result A
  err : Error → Result A

pub Result-cases :
    {A : Type 0} (r : Result A) → ((a : A) × (r ≡ ok a)) ⊎ ((e : Error) × (r ≡ err e))
Result-cases (ok a) = inl (a, refl)
Result-cases (err e) = inr (e, refl)

-- The state comes back after a throw too: what was written outside a transaction stays written.
abbrev pub Exec : Type 0 → Type 0 → Type 0
Exec S A = S → Result A × S

module _ {S A : Type 0} where
  abbrev pub pure : A → Exec S A
  pure a s = (ok a, s)

  abbrev pub raise : Error → Exec S A
  raise e s = (err e, s)

  abbrev pub gets : (S → A) → Exec S A
  gets f s = (ok (f s), s)

  -- `if (!found) throw …`
  abbrev pub or_raise : Option A → Error → Exec S A
  or_raise none e s = (err e, s)
  or_raise (some a) _ s = (ok a, s)

pub or_raise_state : {S A : Type 0} (o : Option A) (e : Error) (s : S) → (or_raise o e s).1 ≡ s
or_raise_state none e s = refl
or_raise_state (some a) e s = refl

-- What follows a step: it runs if the step returned.
abbrev pub resume : {S A B : Type 0} → Result A × S → (A → Exec S B) → Result B × S
resume (ok a, s) f = f a s
resume (err e, s) f = (err e, s)

-- Where a step and what follows it return, the step did.
pub resume_ok :
    {S A B : Type 0} (r : Result A × S) (f : A → Exec S B) (b : B)
    → (resume r f).0 ≡ ok b
    → (a : A) × (r.0 ≡ ok a) × ((f a r.1).0 ≡ ok b)
resume_ok (ok a, s) f b done = (a, refl, done)
resume_ok (err e, s) f b done = absurd (ground (arith, done))

pub resume_returned :
    {S A B : Type 0} (r : Result A × S) (f : A → Exec S B) (a : A)
    → r.0 ≡ ok a
    → resume r f ≡ f a r.1
resume_returned (ok b, s) f a e = cc
resume_returned (err e', s) f a e = absurd (ground (arith, e))

pub resume_failed :
    {S A B : Type 0} (r : Result A × S) (f : A → Exec S B) (e : Error)
    → r.0 ≡ err e
    → resume r f ≡ (err e, r.1)
resume_failed (ok b, s) f e q = absurd (ground (arith, q))
resume_failed (err e', s) f e q = cc

infixl 5 ◌>>=◌ ◌>>◌
abbrev pub ◌>>=◌ : {S A B : Type 0} → Exec S A → (A → Exec S B) → Exec S B
◌>>=◌ m f s = resume (m s) f

abbrev pub ◌>>◌ : {S A B : Type 0} → Exec S A → Exec S B → Exec S B
m >> k = m >>= λ _. k

module _ {S : Type 0} where
  -- `if (test) throw …`
  abbrev pub raise_if : Bool → Error → Exec S (Unit {0})
  raise_if true e s = (err e, s)
  raise_if false e s = (ok tt, s)

  abbrev pub modify : (S → S) → Exec S (Unit {0})
  modify f s = (ok tt, f s)

-- What a transaction leaves, with the state that it began in: a throw rolls every write of the
-- body back.
abbrev pub settle : {S A : Type 0} → S → Result A × S → Result A × S
settle s (ok a, s') = (ok a, s')
settle s (err e, s') = (err e, s)

-- `dataSource.transaction(…)`
abbrev pub transaction : {S A : Type 0} → Exec S A → Exec S A
transaction m s = settle s (m s)

-- An action on a part of the state.
abbrev pub zoom : {S T A : Type 0} → (S → T) → (T → S → S) → Exec T A → Exec S A
zoom view put m s = let (r, t) = m (view s) in (r, put t s)
