-- ===== src/Inventory/Oldest.antt =====
-- The order in which the deduction loop takes from the batches.
use salepoint_backend.Prelude.{
  ℕ, ◌-◌, ◌≡◌, refl, ap, ◌∙◌, none, List, [], ◌∷◌, min, leb, if◌then◌else◌, filter_by, inl, inr,
  ◌⊎◌, Bool-cases, arith, leb→le, ==_refl,
}
use salepoint_backend.Prelude.Table.{save, find_by_id, IsKeyed}
use salepoint_backend.Inventory.Defs.{StorageItem, batch_key, in_stock}
use salepoint_backend.Inventory.Service.{deduct_batches}
use salepoint_backend.Inventory.Fifo.{find_by_id-filter_by}

abbrev pub less_by : ℕ → StorageItem → StorageItem
less_by n b = record b { quantity = b.quantity - n }

-- One pass over the table, with no query and no write by key.
unfoldable pub take_oldest : ℕ → ℕ → List StorageItem → ℕ × List StorageItem
take_oldest p remaining [] = (remaining, [])
take_oldest p remaining (b ∷ bs) =
    let deduct = min b.quantity remaining in
    let taken = take_oldest p (remaining - deduct) bs in
    let passed = take_oldest p remaining bs in
    if in_stock p b then (taken.0, less_by deduct b ∷ taken.1) else (passed.0, b ∷ passed.1)

less_by-zero : (b : StorageItem) → less_by 0 b ≡ b
less_by-zero b = ground arith

take_oldest-zero : (p : ℕ) (table : List StorageItem) → take_oldest p 0 table ≡ (0, table)
unfolding take_oldest
take_oldest-zero p [] = refl
take_oldest-zero p (b ∷ bs) = ground (arith, take_oldest-zero p bs, less_by-zero b)

-- A row that the query did not find is not written.
deduct_batches-cons :
    (remaining : ℕ) (a : StorageItem) (bs table : List StorageItem)
    → find_by_id batch_key a.id bs ≡ none
    → let (left, table') = deduct_batches remaining bs table in
      deduct_batches remaining bs (a ∷ table) ≡ (left, a ∷ table')
unfolding deduct_batches
deduct_batches-cons remaining a [] table new = refl
deduct_batches-cons remaining a (b ∷ bs) table new =
    let deduct = min b.quantity remaining in
    ground (
      arith,
      deduct_batches-cons (remaining - deduct) a bs (save batch_key (less_by deduct b) table),
    )

-- With unique keys, the loop over the query, which writes each batch by its key, gives what one pass over the table gives that takes from the oldest batches of the product first.
deduct_batches-eq-take_oldest :
    (p remaining : ℕ) (table : List StorageItem)
    → IsKeyed batch_key table
    → deduct_batches remaining (filter_by (in_stock p) table) table ≡ take_oldest p remaining table
unfolding deduct_batches take_oldest
deduct_batches-eq-take_oldest p remaining [] keyed = refl
deduct_batches-eq-take_oldest p remaining (b ∷ bs) keyed =
    let found = filter_by (in_stock p) bs in
    let new = find_by_id-filter_by (in_stock p) b.id bs keyed.0 in
    let deduct = min b.quantity remaining in
    let after : ℕ × List StorageItem → StorageItem → ℕ × List StorageItem = λ r a. (r.0, a ∷ r.1) in
    elim (Bool-cases (in_stock p b)) [
      | inr out ↦ rw out (
          deduct_batches-cons remaining b found bs new
          ∙ ap (λ r. after r b) (deduct_batches-eq-take_oldest p remaining bs keyed.1))
      | inl here ↦ rw here (elim (Bool-cases (leb remaining 0)) [
        | inl stop ↦
            let none_left : remaining ≡ 0 = omega (arith, leb→le remaining 0 stop) in
            let no_deduct : deduct ≡ 0 = omega arith in
            let same : remaining - deduct ≡ 0 = omega arith in
            rw stop (
              rw same
                (rw (take_oldest-zero p bs) (rw no_deduct (rw (less_by-zero b) (rw none_left)))))
        | inr go ↦
            rw (go, ==_refl b.id)
              (deduct_batches-cons (remaining - deduct) (less_by deduct b) found bs new
                ∙ ap (λ r. after r (less_by deduct b))
                    (deduct_batches-eq-take_oldest p (remaining - deduct) bs keyed.1))
      ])
    ]

-- Row by row: a batch of the product that lost stock is followed by changed ones only if it is
-- empty now; every other row is as before.
abbrev pub OldestFirst : ℕ → List StorageItem → List StorageItem → Type 0
OldestFirst p [] [] = Unit
OldestFirst p [] (c ∷ cs) = ⊥
OldestFirst p (b ∷ bs) [] = ⊥
OldestFirst p (b ∷ bs) (c ∷ cs) =
    if in_stock p b
    then (((n : ℕ) × (c ≡ less_by n b)) × (((c.quantity ≡ 0) × OldestFirst p bs cs) ⊎ (cs ≡ bs)))
    else ((c ≡ b) × OldestFirst p bs cs)

take_oldest-OldestFirst :
    (p remaining : ℕ) (table : List StorageItem)
    → OldestFirst p table (take_oldest p remaining table).1
unfolding take_oldest
take_oldest-OldestFirst p remaining [] = tt
take_oldest-OldestFirst p remaining (b ∷ bs) =
    let deduct = min b.quantity remaining in
    elim (Bool-cases (in_stock p b)) [
      | inr out ↦ rw out (rw out (refl, take_oldest-OldestFirst p remaining bs))
      | inl here ↦ rw here (
          rw here (
            (deduct, refl),
            elim (Bool-cases (leb b.quantity remaining)) [
              | inl all ↦ inl (
                omega (arith, leb→le b.quantity remaining all),
                take_oldest-OldestFirst p (remaining - deduct) bs,
              )
              | inr part ↦
                  let same : remaining - deduct ≡ 0 = ground arith in
                  inr (rw same (rw (take_oldest-zero p bs)))
            ],
          ))
    ]

-- With unique keys, the deduction loop changes batches of the product only, each by lowering its quantity, and goes on from a batch that it lowers to later ones only if that batch is empty now.
pub deduct_batches-OldestFirst :
    (p remaining : ℕ) (table : List StorageItem)
    → IsKeyed batch_key table
    → OldestFirst p table (deduct_batches remaining (filter_by (in_stock p) table) table).1
deduct_batches-OldestFirst p remaining table keyed =
    rw (deduct_batches-eq-take_oldest p remaining table keyed)
      (take_oldest-OldestFirst p remaining table)
