-- ===== src/Payments.antt =====
-- modules/payments/payments.service.ts
pub mod Outcomes
use salepoint_backend.Prelude.{
  ℕ, ◌+◌, ◌-◌, Bool, true, false, not, Option, none, some, String, ltb, ◌==◌, if◌then◌else◌,
  find_first, filter_by, List,
}
use salepoint_backend.Prelude.Table.{find_by_id}
use salepoint_backend.Decimal.{to_fixed, of_cents}
use salepoint_backend.Exec.{
  Exec, ok, err, pure, gets, or_raise, raise_if, modify, ◌>>=◌, ◌>>◌, order_not_found,
  order_already_paid, order_is_cancelled, tendered_too_low, payment_not_found,
  only_completed_refunded,
}
use salepoint_backend.Entities.{
  Order, OrderStatus, Payment, PaymentMethod, PaymentStatus, payment_key,
}
use salepoint_backend.Database.{Db, order_of, save_payment, fresh_id}
use salepoint_backend.Orders.{mark_paid}

-- The amount tendered is in billionths: the validator does not limit its decimals.
pub record ProcessPaymentDto : Type 0 where
  pub order_id : ℕ
  pub method : PaymentMethod
  pub amount_tendered : Option ℕ
  pub reference_number : Option String

abbrev pub is_paid : OrderStatus → Bool
is_paid OrderStatus.paid = true
is_paid _ = false

abbrev pub is_cancelled : OrderStatus → Bool
is_cancelled OrderStatus.cancelled = true
is_cancelled _ = false

-- The cash that is due back, or the refusal of too little of it; other methods have no change.
unfoldable pub change_for : PaymentMethod → Option ℕ → ℕ → Exec Db (Option ℕ)
unfolding to_fixed
change_for PaymentMethod.cash (some tendered) total db =
    if ltb tendered (of_cents total)
    then (err tendered_too_low, db)
    else (ok (some (to_fixed (tendered - of_cents total))), db)
change_for _ tendered total db = (ok none, db)

abbrev pub rounded : Option ℕ → Option ℕ
rounded none = none
rounded (some amount) = some (to_fixed amount)

-- `paymentRepo.create(…)`
unfoldable pub new_payment : ProcessPaymentDto → Order → Option ℕ → ℕ → ℕ → Payment
unfolding to_fixed
new_payment dto order change now id = record {
  id = id;
  order_id = dto.order_id;
  method = dto.method;
  status = PaymentStatus.completed;
  amount = order.total;
  amount_tendered = rounded dto.amount_tendered;
  change_due = change;
  reference_number = dto.reference_number;
  processed_at = now;
}

-- The three writes are not in one transaction.
unfoldable pub process : ProcessPaymentDto → ℕ → ℕ → Exec Db Payment
unfolding change_for new_payment
process dto shop_id now = do
  order ← or_raise (← gets (order_of dto.order_id (some shop_id))) order_not_found
  raise_if (is_paid order.status) order_already_paid
  raise_if (is_cancelled order.status) order_is_cancelled
  change ← change_for dto.method dto.amount_tendered order.total
  id ← fresh_id
  let payment = new_payment dto order change now id
  modify (save_payment payment)
  mark_paid dto.order_id shop_id
  pure payment

abbrev pub is_completed : PaymentStatus → Bool
is_completed PaymentStatus.completed = true
is_completed _ = false

-- The reason goes to the event only.
unfoldable pub refund : ℕ → Exec Db Payment
refund i = do
  payment ← or_raise (← gets (λ db. find_by_id payment_key i db.payments)) payment_not_found
  raise_if (not (is_completed payment.status)) only_completed_refunded
  modify (save_payment (record payment { status = PaymentStatus.refunded }))
  pure (record payment { status = PaymentStatus.refunded })

-- `sort` is ORDER BY createdAt DESC.
unfoldable pub find_by_order : (List Payment → List Payment) → ℕ → List Payment → List Payment
find_by_order sort order_id rows = sort (filter_by (λ p. p.order_id == order_id) rows)
