-- ===== src/Tests/MoneyCases.antt =====
-- The theorems of debts, payments and shifts at sample data.
use salepoint_backend.Prelude.{◌≡◌, refl, inr, none, some, All, arith}
use salepoint_backend.Prelude.Table.{find_by_id}
use salepoint_backend.Decimal.{of_cents}
use salepoint_backend.Exec.{ok, err, amount_exceeds_debt, not_confirmed}
use salepoint_backend.Entities.{OrderStatus, PaymentMethod, Payment, PaymentStatus, payment_key}
use salepoint_backend.Database.{Db, debt_of}
use salepoint_backend.Debts.{RepayDebtDto, repay, repaid}
use salepoint_backend.Debts.Repaid.{IsBalanced, repay-AllBalanced, repay_stuck}
use salepoint_backend.Payments.{ProcessPaymentDto, process, change_for}
use salepoint_backend.Payments.Outcomes.{process_unconfirmed_leaves_payment}
use salepoint_backend.Shifts.{open_shift}
use salepoint_backend.Shifts.Single.{IsSingle, open_shift-IsSingle}
use salepoint_backend.Tests.Samples.{order_in, debt, db_with}

abbrev db : Db
db = db_with OrderStatus.confirmed

-- 6.00 of the 6.60 that are owed.
abbrev most : RepayDebtDto
most = record { amount = of_cents 600; note = none }

repay-AllBalanced_example : All IsBalanced (repay 4 most 2 1 db).1.debts
repay-AllBalanced_example =
    repay-AllBalanced 4 2 1 600 most db (refl, tt) refl ((refl, ground arith), tt)

-- 6.599 of the 6.60.
abbrev nearly_all : RepayDebtDto
nearly_all = record { amount = 6_599_000_000; note = none }

repay_stuck_example :
    let after = (repay 4 nearly_all 2 1 db).1 in
    (debt_of 4 (some 1) after ≡ some (repaid 6_599_000_000 debt))
    × (repay 4 most 2 1 after ≡ (err amount_exceeds_debt, after))
repay_stuck_example =
    repay_stuck 4 2 1 nearly_all most debt db (refl, tt) refl refl (omega arith) (omega arith)
      (omega arith)

abbrev by_card : ProcessPaymentDto
by_card = record {
  order_id = 9;
  method = PaymentMethod.card;
  amount_tendered = none;
  reference_number = none;
}

no_change : change_for PaymentMethod.card none 660 db ≡ (ok none, db)
unfolding change_for
no_change = refl

no_change_back :
    change_for PaymentMethod.card none 660 (db_with OrderStatus.refunded)
    ≡ (ok none, db_with OrderStatus.refunded)
unfolding change_for
no_change_back = refl

process_unconfirmed_leaves_payment_example :
    let refunded_db = db_with OrderStatus.refunded in
    let after = (process by_card 1 50 refunded_db).1 in
    ((process by_card 1 50 refunded_db).0 ≡ err not_confirmed)
    × ((p : Payment) × (find_by_id payment_key 20 after.payments ≡ some p)
        × (p.status ≡ PaymentStatus.completed)
        × (p.amount ≡ 660))
process_unconfirmed_leaves_payment_example =
    process_unconfirmed_leaves_payment by_card 1 50 (order_in OrderStatus.refunded) none
      (db_with OrderStatus.refunded) refl (inr refl) no_change_back

db-IsSingle : IsSingle db
db-IsSingle = record {
  keyed = (refl, tt);
  below = (omega arith, tt);
  single = λ shop cashier. ground arith;
}

open_shift-IsSingle_example :
    IsSingle (open_shift (record { opening_float = 0; notes = none }) 6 1 50 db).1
open_shift-IsSingle_example =
    open_shift-IsSingle (record { opening_float = 0; notes = none }) 6 1 50 db db-IsSingle
