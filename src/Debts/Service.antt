-- ===== src/Debts/Service.antt =====
-- modules/debts/debts.service.ts
use salepoint_backend.Prelude.{
  ℕ, ◌+◌, ◌-◌, Bool, true, false, Option, some, [], ◌∷◌, ◌++◌, String, ltb, ◌==◌, if◌then◌else◌,
}
use salepoint_backend.Prelude.Table.{update_by_id}
use salepoint_backend.Decimal.{to_fixed, of_cents}
use salepoint_backend.Exec.{
  Exec, pure, gets, or_raise, raise_if, modify, ◌>>=◌, ◌>>◌, debt_not_found, debt_already_paid,
  amount_exceeds_debt,
}
use salepoint_backend.Entities.{Order, OrderStatus, order_key, Debt, DebtStatus, debt_key}
use salepoint_backend.Database.{Db, debt_of, save_debt, fresh_id}

-- `debtRepo.create(…)`
unfoldable pub new_debt : Order → ℕ → ℕ → Debt
new_debt order cashier_id id = record {
  id = id;
  shop_id = order.shop_id;
  order_id = order.id;
  customer_id = order.customer_id;
  cashier_id = cashier_id;
  total_debt = order.not_paid;
  paid_amount = 0;
  remaining_amount = order.not_paid;
  status = DebtStatus.pending;
}

unfoldable pub create_from_order : Order → ℕ → Exec Db Debt
unfolding new_debt
create_from_order order cashier_id = do
  id ← fresh_id
  modify (save_debt (new_debt order cashier_id id))
  pure (new_debt order cashier_id id)

-- The amount is in billionths: the validator does not limit its decimals.
pub record RepayDebtDto : Type 0 where
  pub amount : ℕ
  pub note : Option String

abbrev pub is_paid : DebtStatus → Bool
is_paid DebtStatus.paid = true
is_paid _ = false

-- `remainingAmount === 0 ? PAID : PARTIAL`, before the column rounds the remaining amount.
abbrev pub repaid_status : ℕ → DebtStatus
repaid_status remaining = if remaining == 0 then DebtStatus.paid else DebtStatus.partial

-- `debtRepo.update(id, { paidAmount, remainingAmount, status })`
unfoldable pub repaid : ℕ → Debt → Debt
unfolding to_fixed
repaid amount debt =
    let remaining = of_cents debt.remaining_amount - amount in
    record debt {
      paid_amount = to_fixed (of_cents debt.paid_amount + amount);
      remaining_amount = to_fixed remaining;
      status = repaid_status remaining;
    }

abbrev pub mark_order_paid : ℕ → Db → Db
mark_order_paid i db = record db {
  orders = update_by_id order_key i (λ o. record o { status = OrderStatus.paid }) db.orders;
}

-- `if (status === DebtStatus.PAID)` the order becomes paid too.
abbrev pub settle_order : Debt → Db → Db
settle_order debt db = if is_paid debt.status then mark_order_paid debt.order_id db else db

unfoldable pub repay : ℕ → RepayDebtDto → ℕ → ℕ → Exec Db Debt
unfolding repaid to_fixed
repay i dto cashier_id shop_id = do
  debt ← or_raise (← gets (debt_of i (some shop_id))) debt_not_found
  raise_if (is_paid debt.status) debt_already_paid
  raise_if (ltb (of_cents debt.remaining_amount) dto.amount) amount_exceeds_debt
  modify (λ db. record db {
    repayments =
        db.repayments
        ++ (record {
          debt_id = i;
          cashier_id = cashier_id;
          amount = to_fixed dto.amount;
          note = dto.note;
        }
            ∷ []);
  })
  modify (λ db. record db { debts = update_by_id debt_key i (repaid dto.amount) db.debts })
  modify (settle_order (repaid dto.amount debt))
  or_raise (← gets (debt_of i (some shop_id))) debt_not_found
