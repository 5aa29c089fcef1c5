-- ===== src/Debts/Repaid.antt =====
-- What a repayment does to a debt.
use salepoint_backend.Prelude.{
  ℕ, ◌+◌, ◌≤◌, ◌<◌, ltb, ◌==◌, ◌≡◌, ◌↔◌, refl, Bool, true, false, ◌&&◌, if◌then◌else◌, some, arith,
  inl, inr, Bool-cases, Option-cases, find_first-holds, subst, sym, All, ==→eq, ◌⊎◌,
}
use salepoint_backend.Prelude.Table.{
  find_by_id, IsKeyed, find_by_id-find_first, find_first-update_by_id, All-update_by_id,
  All-find_first,
}
use salepoint_backend.Decimal.{to_fixed, of_cents}
use salepoint_backend.Exec.{
  ok, err, or_raise_state, debt_already_paid, amount_exceeds_debt, debt_not_found,
}
use salepoint_backend.Entities.{Debt, DebtStatus, debt_key}
use salepoint_backend.Database.{Db, debt_of, scoped}
use salepoint_backend.Debts.Service.{
  RepayDebtDto, repaid, repay, is_paid, settle_order, mark_order_paid,
}

-- A debt row as the columns hold it: what is paid and what remains make up the debt, and it is marked as paid exactly when nothing remains.
abbrev pub IsBalanced : Debt → Type 0
IsBalanced d =
    (d.paid_amount + d.remaining_amount ≡ d.total_debt)
    × ((d.remaining_amount ≡ 0) ↔ (d.status ≡ DebtStatus.paid))

-- A repayment of whole cents, at most the remaining amount, keeps a debt balanced.
repaid-IsBalanced :
    (cents : ℕ) (d : Debt)
    → IsBalanced d
    → cents ≤ d.remaining_amount
    → IsBalanced (repaid (of_cents cents) d)
unfolding repaid to_fixed
repaid-IsBalanced cents d h enough = (omega (arith, h.0), ground (arith, h.1))

repaid_stuck :
    (amount : ℕ) (d : Debt)
    → amount < of_cents d.remaining_amount
    → of_cents d.remaining_amount < amount + 5_000_000
    → ((repaid amount d).remaining_amount ≡ 0) × ((repaid amount d).status ≡ DebtStatus.partial)
unfolding repaid to_fixed
repaid_stuck amount d less near = (omega arith, ground arith)

-- The debt that a query finds is the debt under its key.
by_key :
    (i shop : ℕ) (d : Debt) (db : Db)
    → IsKeyed debt_key db.debts
    → debt_of i (some shop) db ≡ some d
    → find_by_id debt_key i db.debts ≡ some d
by_key i shop d db keyed found =
    let asked =
      find_first-holds (λ x. x.id == i && scoped (some shop) x.shop_id) db.debts d found in
    let same : d.id ≡ i = ground (arith, ==→eq d.id i) in
    subst (λ k. find_by_id debt_key k db.debts ≡ some d) same
      (find_by_id-find_first debt_key (λ x. x.id == i && scoped (some shop) x.shop_id) db.debts d
        keyed found)

settled_debts :
    (paid : Bool) (j : ℕ) (db : Db) → (if paid then mark_order_paid j db else db).debts ≡ db.debts
settled_debts true j db = refl
settled_debts false j db = refl

is_paid_lem : (t : DebtStatus) → is_paid t ≡ true → t ≡ DebtStatus.paid
is_paid_lem DebtStatus.paid h = refl
is_paid_lem DebtStatus.partial h = ground arith
is_paid_lem DebtStatus.pending h = ground arith

-- What `repay` does to a debt that it finds, in a table with unique keys. A paid debt, and an amount above the remaining one, are refused and change nothing; otherwise the reply is the debt with the amount moved from what remains to what is paid.
repay_outcome :
    (i cashier shop : ℕ) (dto : RepayDebtDto) (d : Debt) (db : Db)
    → IsKeyed debt_key db.debts
    → debt_of i (some shop) db ≡ some d
    → ((d.status ≡ DebtStatus.paid) × (repay i dto cashier shop db ≡ (err debt_already_paid, db)))
      ⊎ ((of_cents d.remaining_amount < dto.amount)
          × (repay i dto cashier shop db ≡ (err amount_exceeds_debt, db)))
      ⊎ ((dto.amount ≤ of_cents d.remaining_amount)
          × ((repay i dto cashier shop db).0 ≡ ok (repaid dto.amount d)))
unfolding repay
repay_outcome i cashier shop dto d db keyed found = rw found (elim (Bool-cases (is_paid d.status)) [
  | inl paid ↦ rw paid (inl (is_paid_lem d.status paid, refl))
  | inr unpaid ↦ rw unpaid (elim (Bool-cases (ltb (of_cents d.remaining_amount) dto.amount)) [
    | inl much ↦ rw much (inr (inl (ground (arith, much), refl)))
    | inr fits ↦ rw fits (
        inr (
          inr (
            ground (arith, fits),
            rw (settled_debts (is_paid (repaid dto.amount d).status) d.order_id _) (
                rw
                  (find_first-update_by_id debt_key i (repaid dto.amount)
                    (λ x. x.id == i && scoped (some shop) x.shop_id) d db.debts
                    (λ x q. ground (arith, ==→eq x.id i)) (by_key i shop d db keyed found)
                    (find_first-holds (λ x. x.id == i && scoped (some shop) x.shop_id) db.debts d
                      found))
                  refl),
          )))
  ])
])

-- In a table with unique keys `repay` of whole cents keeps every debt balanced, whether it returns or throws.
pub repay-AllBalanced :
    (i cashier shop cents : ℕ) (dto : RepayDebtDto) (db : Db)
    → IsKeyed debt_key db.debts
    → dto.amount ≡ of_cents cents
    → All IsBalanced db.debts
    → All IsBalanced (repay i dto cashier shop db).1.debts
unfolding repay
repay-AllBalanced i cashier shop cents dto db keyed whole balanced =
    elim (Option-cases (debt_of i (some shop) db)) [
      | inl missing ↦ rw missing balanced
      | inr (d, found) ↦ rw found (elim (Bool-cases (is_paid d.status)) [
        | inl paid ↦ rw paid balanced
        | inr unpaid ↦ rw unpaid (elim (Bool-cases (ltb (of_cents d.remaining_amount) dto.amount)) [
          | inl much ↦ rw much balanced
          | inr fits ↦ rw fits (
              rw (or_raise_state (debt_of i (some shop) _) debt_not_found (settle_order _ _)) (
                rw (settled_debts (is_paid (repaid dto.amount d).status) d.order_id _) (
                  All-update_by_id debt_key IsBalanced i (repaid dto.amount) d db.debts balanced
                    (by_key i shop d db keyed found)
                    (subst (λ m. IsBalanced (repaid m d)) (sym whole)
                      (repaid-IsBalanced cents d
                        (All-find_first debt_key IsBalanced
                          (λ x. x.id == i && scoped (some shop) x.shop_id) d db.debts balanced
                          found)
                        (ground (arith, whole, fits)))))))
        ])
      ])
    ]

accepted :
    (i cashier shop : ℕ) (dto : RepayDebtDto) (d : Debt) (db : Db)
    → IsKeyed debt_key db.debts
    → debt_of i (some shop) db ≡ some d
    → is_paid d.status ≡ false
    → ltb (of_cents d.remaining_amount) dto.amount ≡ false
    → debt_of i (some shop) (repay i dto cashier shop db).1 ≡ some (repaid dto.amount d)
unfolding repay
accepted i cashier shop dto d db keyed found unpaid fits = rw found (
    rw unpaid (
      rw fits (
        rw (or_raise_state (debt_of i (some shop) _) debt_not_found (settle_order _ _)) (
          rw (settled_debts (is_paid (repaid dto.amount d).status) d.order_id _) (
            find_first-update_by_id debt_key i (repaid dto.amount)
              (λ x. x.id == i && scoped (some shop) x.shop_id) d db.debts
              (λ x q. ground (arith, ==→eq x.id i)) (by_key i shop d db keyed found)
              (find_first-holds (λ x. x.id == i && scoped (some shop) x.shop_id) db.debts d
                found))))))

refused :
    (i cashier shop : ℕ) (dto : RepayDebtDto) (d : Debt) (db : Db)
    → debt_of i (some shop) db ≡ some d
    → is_paid d.status ≡ false
    → ltb (of_cents d.remaining_amount) dto.amount ≡ true
    → repay i dto cashier shop db ≡ (err amount_exceeds_debt, db)
unfolding repay
refused i cashier shop dto d db found unpaid much = rw found (rw unpaid (rw much refl))

-- In a table with unique keys: after a repayment, of a debt that is not paid, that leaves less than half a cent but not nothing, the debt has nothing left to pay and is still not paid: every further repayment of a positive amount is refused.
pub repay_stuck :
    (i cashier shop : ℕ) (first next : RepayDebtDto) (d : Debt) (db : Db)
    → IsKeyed debt_key db.debts
    → debt_of i (some shop) db ≡ some d
    → is_paid d.status ≡ false
    → first.amount < of_cents d.remaining_amount
    → of_cents d.remaining_amount < first.amount + 5_000_000
    → 0 < next.amount
    → let after = (repay i first cashier shop db).1 in
      (debt_of i (some shop) after ≡ some (repaid first.amount d))
      × (repay i next cashier shop after ≡ (err amount_exceeds_debt, after))
repay_stuck i cashier shop first next d db keyed found unpaid less near positive =
    let stuck = repaid_stuck first.amount d less near in
    let after = (repay i first cashier shop db).1 in
    let read : debt_of i (some shop) after ≡ some (repaid first.amount d) =
      accepted i cashier shop first d db keyed found unpaid (ground arith) in
    (
      read,
      refused i cashier shop next (repaid first.amount d) after read (rw stuck.1 refl)
          (rw stuck.0 (ground arith)),
    )
