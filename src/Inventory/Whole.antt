-- ===== src/Inventory/Whole.antt =====
-- Deductions of whole units, as of products that are sold by the piece: no double rounds.
use salepoint_backend.Prelude.{
  ℕ, ◌+◌, ◌-◌, ◌*◌, ◌^◌, ◌≤◌, ◌<◌, ◌≡◌, refl, sym, subst, ap, ◌∙◌, false, List, [], ◌∷◌, min, leb,
  leb→le, ltb, sum_by, All, All-filter_by, filter_by, inl, inr, Bool-cases, arith,
}
use salepoint_backend.Double.{one, of_ratio, of_thousandths}
use salepoint_backend.Double as Double
use salepoint_backend.Double.Whole.{of_ratio_whole, sub_whole}
use salepoint_backend.Prelude.Table.{save, All-save}
use salepoint_backend.Inventory.Defs.{Stock, StorageItem, batch_key, in_stock, held, stored}
use salepoint_backend.Inventory.Service.{drained, deduct_batches, deduct_from_storage}
use salepoint_backend.Inventory.Fifo.{AreOf, filter_by-AreOf, sum_by-filter_by}
use salepoint_backend.Exec.{ok}
use salepoint_backend.Inventory.Sound.{IsSound}
use salepoint_backend.Inventory.Taken.{batches_after}
use salepoint_backend.Inventory.Deduct.{rounds_over, after_deduct}

-- Whole units, fewer than 2^53 of them, in thousandths.
abbrev pub IsWhole : ℕ → Type 0
IsWhole n = (m : ℕ) × (n ≡ m * 1000) × (m < 2 ^ 53)

abbrev pub AreWhole : List StorageItem → Type 0
AreWhole = All (λ (b : StorageItem). IsWhole b.quantity)

min_scaled : (m a o : ℕ) → min (m * o) (a * o) ≡ min m a * o
min_scaled m a o = elim (Bool-cases (leb m a)) [
  | inl less ↦ grind (arith, less)
  | inr more ↦ grind (arith, more)
]

drained_whole :
    (p a : ℕ) (bs : List StorageItem)
    → a < 2 ^ 53
    → AreOf p bs
    → AreWhole bs
    → (u : ℕ) × (sum_by (held p) bs ≡ u * 1000) × (drained (a * one) bs ≡ (a - u) * one)
unfolding drained
drained_whole p a [] small mine whole = (0, refl, omega arith)
drained_whole p a (b ∷ bs) small mine ((m, e, few), whole) =
    let (u, total, rest) = drained_whole p (a - min m a) bs (omega arith) mine.1 whole in
    let read : of_thousandths b.quantity ≡ m * one = ap of_thousandths e ∙ of_ratio_whole m few in
    let left : Double.sub (a * one) (min (of_thousandths b.quantity) (a * one))
        ≡ (a - min m a) * one =
      ap (λ x. Double.sub (a * one) (min x (a * one))) read
      ∙ ap (λ x. Double.sub (a * one) x) (min_scaled m a one)
      ∙ sub_whole a (min m a) small in
    (
      m + u,
      ground (arith, mine.0, e, total),
      elim (Bool-cases (leb (a * one) 0)) [
        | inl stop ↦ rw stop (omega (arith, leb→le (a * one) 0 stop))
        | inr go ↦ rw go (rw left (rest ∙ omega arith))
      ],
    )

pub rounds_over_whole :
    (p n : ℕ) (s : Stock)
    → IsWhole n
    → AreWhole s.batches
    → n ≤ stored p s
    → rounds_over p n s ≡ false
rounds_over_whole p n s (a, e, small) whole enough =
    let found = filter_by (in_stock p) s.batches in
    let (u, total, rest) =
      drained_whole p a found small (filter_by-AreOf p s.batches)
        (All-filter_by (λ (b : StorageItem). IsWhole b.quantity) (in_stock p) s.batches whole) in
    let all : a ≤ u = ground (arith, e, total, sum_by-filter_by p s.batches) in
    let read : of_thousandths n ≡ a * one = ap of_thousandths e ∙ of_ratio_whole a small in
    let left : drained (of_thousandths n) found ≡ 0 =
      ap (λ x. drained x found) read ∙ rest ∙ omega arith in
    ap (ltb 0) left

deduct_batches-AreWhole :
    (a : ℕ) (bs table : List StorageItem)
    → AreWhole bs
    → AreWhole table
    → AreWhole (deduct_batches (a * 1000) bs table).1
unfolding deduct_batches
deduct_batches-AreWhole a [] table h k = k
deduct_batches-AreWhole a (b ∷ bs) table ((m, e, few), h) k =
    let deduct = min b.quantity (a * 1000) in
    let less : StorageItem = record b { quantity = b.quantity - deduct } in
    let next : a * 1000 - deduct ≡ (a - min m a) * 1000 = rw e (omega arith) in
    let kept : IsWhole (b.quantity - deduct) = (m - min m a, rw e (omega arith), omega arith) in
    elim (Bool-cases (leb (a * 1000) 0)) [
      | inl stop ↦ rw stop k
      | inr go ↦ rw go (
          subst (λ x. AreWhole (deduct_batches x bs (save batch_key less table)).1) (sym next)
            (deduct_batches-AreWhole (a - min m a) bs (save batch_key less table) h
              (All-save batch_key (λ (x : StorageItem). IsWhole x.quantity) less table k kept)))
    ]

-- Where `deductFromStorage` of whole units returns, it leaves whole units.
pub deduct_from_storage-AreWhole :
    (p n r : ℕ) (s : Stock)
    → IsSound s
    → IsWhole n
    → AreWhole s.batches
    → (deduct_from_storage p n r s).0 ≡ ok tt
    → AreWhole (deduct_from_storage p n r s).1.batches
deduct_from_storage-AreWhole p n r s sound (a, e, small) whole done =
    subst AreWhole (sym (batches_after p n r s sound done ∙ ap (λ x. after_deduct p x s.batches) e))
      (deduct_batches-AreWhole a (filter_by (in_stock p) s.batches) s.batches
        (All-filter_by (λ (b : StorageItem). IsWhole b.quantity) (in_stock p) s.batches whole)
        whole)
