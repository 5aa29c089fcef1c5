-- ===== src/Inventory/Deduct.antt =====
-- `deductFromStorage`, which the order queue runs for each item of an order.
use salepoint_backend.Prelude.{
  ℕ, ◌-◌, ◌≤◌, ◌<◌, ltb, leb, min, leb→le, ==_refl, ◌≡◌, ◌≢◌, refl, sym, ap, ◌∙◌, Bool, true, false,
  some, List, [], ◌∷◌, ◌++◌, not, ◌&&◌, if◌then◌else◌, filter_by, sum_by, inl, inr, Bool-cases,
  Option-cases, arith,
}
use salepoint_backend.Prelude.Int.{pos, ◌-ℤ◌, int_laws}
use salepoint_backend.Prelude.Table.{find_first-IsBelow, save, IsKeyed, IsBelow, save-IsBelow}
use salepoint_backend.Double.{of_thousandths}
use salepoint_backend.Exec.{ok, err, insufficient_storage}
use salepoint_backend.Inventory.Defs.{
  Stock, StockLevel, StorageItem, StockMovement, level_key, batch_key, of_product, in_stock, held,
  level_of,
}
use salepoint_backend.Inventory.Service.{
  deduct_batches, deduct_from_storage, deduct_oldest, drained, sold,
}
use salepoint_backend.Inventory.Fifo.{
  filter_by-AreRows, filter_by-AreOf, sum_by-filter_by, deduct_batches-sum,
  deduct_batches-sum_other, deduct_batches-IsKeyed,
}
use salepoint_backend.Inventory.Sound.{
  IsSound, IsSafe, IsWritten-old, IsSound-write, IsCovered-write, level_in, on_hand_of, moved,
}
use salepoint_backend.Inventory.Reserve.{on_hand-found, reserved-found}

deduct_batches-IsBelow :
    (k remaining : ℕ) (bs table : List StorageItem)
    → IsBelow batch_key k bs
    → IsBelow batch_key k table
    → IsBelow batch_key k (deduct_batches remaining bs table).1
unfolding deduct_batches
deduct_batches-IsBelow k remaining [] table hb h = h
deduct_batches-IsBelow k remaining (b ∷ bs) table hb h =
    let deduct = min b.quantity remaining in
    let less : StorageItem = record b { quantity = b.quantity - deduct } in
    elim (Bool-cases (leb remaining 0)) [
      | inl stop ↦ rw stop h
      | inr go ↦ rw go (
          deduct_batches-IsBelow k (remaining - deduct) bs (save batch_key less table) hb.1
            (save-IsBelow batch_key k less table hb.0 h))
    ]

filter_by-IsBelow :
    (k : ℕ) (p : StorageItem → Bool) (table : List StorageItem)
    → IsBelow batch_key k table
    → IsBelow batch_key k (filter_by p table)
filter_by-IsBelow k p [] h = tt
filter_by-IsBelow k p (b ∷ bs) h = elim (Bool-cases (p b)) [
  | inl own ↦ rw own (h.0, filter_by-IsBelow k p bs h.1)
  | inr out ↦ rw out (filter_by-IsBelow k p bs h.1)
]

-- The batches after the deduction of n from product p, and what is left to deduct.
abbrev pub after_deduct : ℕ → ℕ → List StorageItem → List StorageItem
after_deduct p n table = (deduct_batches n (filter_by (in_stock p) table) table).1

abbrev pub left_over : ℕ → ℕ → List StorageItem → ℕ
left_over p n table = (deduct_batches n (filter_by (in_stock p) table) table).0

module _ (p n : ℕ) (table : List StorageItem) (keyed : IsKeyed batch_key table) where
  pub left_over_lem : left_over p n table ≡ n - sum_by (held p) table
  left_over_lem =
      (deduct_batches-sum p n (filter_by (in_stock p) table) table (filter_by-AreOf p table)
        (filter_by-AreRows (in_stock p) table keyed)).1
      ∙ ap (λ (t : ℕ). n - t) (sum_by-filter_by p table)

  pub sum_by-after_deduct : sum_by (held p) (after_deduct p n table) ≡ sum_by (held p) table - n
  sum_by-after_deduct = omega (
    arith,
    left_over_lem,
    (deduct_batches-sum p n (filter_by (in_stock p) table) table (filter_by-AreOf p table)
        (filter_by-AreRows (in_stock p) table keyed)).0,
  )

  pub sum_by-after_deduct_other :
      (q : ℕ) → p ≢ q → sum_by (held q) (after_deduct p n table) ≡ sum_by (held q) table
  sum_by-after_deduct_other q other =
      deduct_batches-sum_other p q n (filter_by (in_stock p) table) table other
        (filter_by-AreOf p table) (filter_by-AreRows (in_stock p) table keyed)

  pub after_deduct-IsKeyed : IsKeyed batch_key (after_deduct p n table)
  after_deduct-IsKeyed = deduct_batches-IsKeyed n (filter_by (in_stock p) table) table keyed

pub after_deduct-IsBelow :
    (k p n : ℕ) (table : List StorageItem)
    → IsBelow batch_key k table
    → IsBelow batch_key k (after_deduct p n table)
after_deduct-IsBelow k p n table h =
    deduct_batches-IsBelow k n (filter_by (in_stock p) table) table
      (filter_by-IsBelow k (in_stock p) table h) h

-- Whether the loop ends with a positive double.
abbrev pub rounds_over : ℕ → ℕ → Stock → Bool
rounds_over p n s = ltb 0 (drained (of_thousandths n) (filter_by (in_stock p) s.batches))

-- From sound tables `deductFromStorage` returns if the batches of the product hold the quantity together and nothing remains in doubles, and throws the "Insufficient storage stock" exception otherwise.
pub deduct_from_storage_outcome :
    (p n r : ℕ) (s : Stock)
    → IsSound s
    → (deduct_from_storage p n r s).0 ≡ (
        if leb n (sum_by (held p) s.batches) && not (rounds_over p n s)
        then ok tt
        else err insufficient_storage)
unfolding deduct_from_storage deduct_oldest
deduct_from_storage_outcome p n r s sound =
    rw (left_over_lem p n s.batches sound.batches_keyed)
      (elim (Bool-cases (leb n (sum_by (held p) s.batches))) [
        | inl enough ↦
            let done : ltb 0 (n - sum_by (held p) s.batches) ≡ false = ground arith in
            rw enough (
              rw done (elim (Bool-cases (rounds_over p n s)) [
                | inl over ↦ rw over
                | inr exact ↦
                    rw exact
                      (elim (Option-cases (level_of p s)) [ inl e ↦ rw e | inr (l, e) ↦ rw e ])
              ]))
        | inr short ↦
            let more : ltb 0 (n - sum_by (held p) s.batches) ≡ true = ground arith in
            rw short (rw more)
      ])

sub-pos : (a b : ℕ) → b ≤ a → pos a -ℤ pos b ≡ pos (a - b)
sub-pos a b h = omega int_laws

-- The level, the batches and the movement of a sale that the batches cover.
sale_written :
    (p n : ℕ) (old : StockLevel) (m : StockMovement) (s : Stock)
    → IsSafe s
    → level_in p s.levels ≡ some old
    → n ≤ sum_by (held p) s.batches
    → m.product_id ≡ p
    → moved p m ≡ pos 0 -ℤ pos n
    → IsSafe (record {
      levels = save level_key (sold old n) s.levels;
      batches = after_deduct p n s.batches;
      movements = s.movements ++ (m ∷ []);
      next_id = s.next_id;
    })
sale_written p n old m s safe found enough product out =
    let sound = safe.sound in
    let keyed = sound.batches_keyed in
    let rest = sum_by-after_deduct p n s.batches keyed in
    let others = sum_by-after_deduct_other p n s.batches keyed in
    let written = IsWritten-old p old (sold old n) s.levels sound.levels_keyed found refl refl in
    record {
      sound =
          IsSound-write p (sold old n) (after_deduct p n s.batches) m s.next_id sound written
            (find_first-IsBelow level_key s.next_id (of_product p) s.levels old sound.levels_below
              found)
            sound.levels_below (after_deduct-IsKeyed p n s.batches keyed)
            (after_deduct-IsBelow s.next_id p n s.batches sound.batches_below) others product
            (rw (on_hand-found p old sound found) (rw rest (sub-pos _ _ enough)))
            (rw found (rw out (omega int_laws)));
      cover =
          IsCovered-write p (sold old n) (after_deduct p n s.batches) (s.movements ++ (m ∷ []))
            s.next_id safe.cover written others
            (rw rest (omega (arith, reserved-found p old safe.cover found)));
    }

-- Where `deductFromStorage` of a positive quantity returns, it keeps the stock tables safe.
pub deduct_from_storage-IsSafe :
    (p n r : ℕ) (s : Stock)
    → IsSafe s
    → 0 < n
    → (deduct_from_storage p n r s).0 ≡ ok tt
    → IsSafe (deduct_from_storage p n r s).1
unfolding deduct_from_storage deduct_oldest
deduct_from_storage-IsSafe p n r s safe positive done =
    let outcome = deduct_from_storage_outcome p n r s safe.sound in
    let enough : leb n (sum_by (held p) s.batches) ≡ true = ground arith in
    let le = leb→le n (sum_by (held p) s.batches) enough in
    let stop : ltb 0 (n - sum_by (held p) s.batches) ≡ false = ground arith in
    let exact : rounds_over p n s ≡ false = ground arith in
    rw (left_over_lem p n s.batches safe.sound.batches_keyed) (
      rw stop (
        rw exact (elim (Option-cases (level_of p s)) [
          | inl missing ↦
              let nothing : pos 0 ≡ pos (sum_by (held p) s.batches) =
                ap on_hand_of (sym missing) ∙ safe.sound.counted p in
              absurd (ground arith)
          | inr (l, found) ↦ rw found (sale_written p n l _ s safe found le refl (rw (==_refl p)))
        ])))
