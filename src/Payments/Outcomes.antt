-- ===== src/Payments/Outcomes.antt =====
-- What paying for an order does, branch by branch.
use salepoint_backend.Prelude.{
  ℕ, ◌+◌, ◌-◌, ◌<◌, ltb, ◌==◌, ◌≡◌, ◌⊎◌, refl, ◌&&◌, Option, some, arith, inl, inr, Bool-cases,
  find_first-holds,
}
use salepoint_backend.Prelude.Table.{find_by_id, find_by_id-save_self, find_first-save_self}
use salepoint_backend.Decimal.{to_fixed, of_cents}
use salepoint_backend.Exec.{ok, err, not_confirmed, tendered_too_low}
use salepoint_backend.Entities.{
  Order, OrderStatus, PaymentMethod, Payment, PaymentStatus, payment_key, order_key,
}
use salepoint_backend.Database.{Db, order_of, scoped}
use salepoint_backend.Orders.{mark_paid}
use salepoint_backend.Payments.{ProcessPaymentDto, process, change_for, new_payment}

exact_change :
    (tendered total : ℕ) → to_fixed (of_cents tendered - of_cents total) ≡ tendered - total
unfolding to_fixed
exact_change tendered total = omega arith

-- Cash tendered in whole cents is refused exactly when it is below the total; otherwise the change and the total make up what was tendered.
change_for_cash :
    (tendered total : ℕ) (db : Db)
    → ((tendered < total)
        × (change_for PaymentMethod.cash (some (of_cents tendered)) total db
            ≡ (err tendered_too_low, db)))
      ⊎ ((change : ℕ) × (change_for PaymentMethod.cash (some (of_cents tendered)) total db
            ≡ (ok (some change), db))
          × (change + total ≡ tendered))
unfolding change_for to_fixed
change_for_cash tendered total db = elim (Bool-cases (ltb (of_cents tendered) (of_cents total))) [
  | inl short ↦ inl (ground arith, rw short refl)
  | inr enough ↦
      inr (tendered - total, rw enough (rw (exact_change tendered total) refl), ground arith)
]

-- Paying for a confirmed order, with enough cash where cash is tendered, returns a completed payment of the order's total, which is in the table, and makes the order paid.
process_confirmed :
    (dto : ProcessPaymentDto) (shop now : ℕ) (o : Order) (change : Option ℕ) (db : Db)
    → order_of dto.order_id (some shop) db ≡ some o
    → o.status ≡ OrderStatus.confirmed
    → change_for dto.method dto.amount_tendered o.total db ≡ (ok change, db)
    → let after = (process dto shop now db).1 in
      ((p : Payment) × ((process dto shop now db).0 ≡ ok p)
        × (p.amount ≡ o.total)
        × (p.change_due ≡ change)
        × (find_by_id payment_key p.id after.payments ≡ some p))
      × (order_of dto.order_id (some shop) after ≡ some (record o { status = OrderStatus.paid }))
unfolding process mark_paid
process_confirmed dto shop now o change db found confirmed enough = rw found (
    rw confirmed (
      rw enough (
        rw found (
          rw confirmed (
            (
              new_payment dto o change now db.next_id,
              refl,
              refl,
              refl,
              find_by_id-save_self payment_key (new_payment dto o change now db.next_id)
                  db.payments,
            ),
            find_first-save_self order_key
                (λ x. x.id == dto.order_id && scoped (some shop) x.shop_id)
                (record o { status = OrderStatus.paid }) o db.orders found refl
                (find_first-holds (λ x. x.id == dto.order_id && scoped (some shop) x.shop_id)
                  db.orders o found),
          )))))

-- Paying for an order that is pending or refunded, by a method and with an amount tendered that cover its total, throws, yet leaves a completed payment of the order's total in the table.
pub process_unconfirmed_leaves_payment :
    (dto : ProcessPaymentDto) (shop now : ℕ) (o : Order) (change : Option ℕ) (db : Db)
    → order_of dto.order_id (some shop) db ≡ some o
    → (o.status ≡ OrderStatus.pending) ⊎ (o.status ≡ OrderStatus.refunded)
    → change_for dto.method dto.amount_tendered o.total db ≡ (ok change, db)
    → let after = (process dto shop now db).1 in
      ((process dto shop now db).0 ≡ err not_confirmed)
      × ((p : Payment) × (find_by_id payment_key db.next_id after.payments ≡ some p)
          × (p.status ≡ PaymentStatus.completed)
          × (p.amount ≡ o.total))
unfolding process mark_paid
process_unconfirmed_leaves_payment dto shop now o change db found (inl pend) enough = rw found (
    rw pend (
      rw enough (
        rw found (
          rw pend (
            refl,
            (
              new_payment dto o change now db.next_id,
              find_by_id-save_self payment_key (new_payment dto o change now db.next_id)
                  db.payments,
              refl,
              refl,
            ),
          )))))
process_unconfirmed_leaves_payment dto shop now o change db found (inr back) enough = rw found (
    rw back (
      rw enough (
        rw found (
          rw back (
            refl,
            (
              new_payment dto o change now db.next_id,
              find_by_id-save_self payment_key (new_payment dto o change now db.next_id)
                  db.payments,
              refl,
              refl,
            ),
          )))))

-- `process` never touches the debts: an order made paid by a payment of its total keeps the debt of its unpaid part as it was.
process_debts :
    (dto : ProcessPaymentDto) (shop now : ℕ) (db : Db)
    → (process dto shop now db).1.debts ≡ db.debts
unfolding process mark_paid
process_debts dto shop now db = ground arith
