-- ===== src/Inventory/Fifo.antt =====
-- The loop that takes stock from the oldest batches.
use salepoint_backend.Prelude.{
  ℕ, ◌+◌, ◌-◌, ◌≡◌, ◌≢◌, refl, Bool, none, some, List, [], ◌∷◌, min, leb, filter_by, sum_by, All,
  inl, inr, Bool-cases, arith, leb→le,
}
use salepoint_backend.Prelude.Table.{
  save, find_by_id, IsKeyed, save-IsKeyed, find_by_id-save_ne, sum_by-save,
}
use salepoint_backend.Inventory.Defs.{StorageItem, batch_key, in_stock, held}
use salepoint_backend.Inventory.Service.{deduct_batches}

-- The rows of a query are rows of the table, under keys of their own.
abbrev pub AreRows : List StorageItem → List StorageItem → Type 0
AreRows [] table = Unit
AreRows (b ∷ bs) table =
    (find_by_id batch_key b.id table ≡ some b)
    × (find_by_id batch_key b.id bs ≡ none)
    × AreRows bs table

-- A write of a row that the query did not find leaves the query's rows in the table.
AreRows-save :
    (a : StorageItem) (bs table : List StorageItem)
    → find_by_id batch_key a.id bs ≡ none
    → AreRows bs table
    → AreRows bs (save batch_key a table)
AreRows-save a [] table new rows = tt
AreRows-save a (b ∷ bs) table new rows =
    ground (arith, find_by_id-save_ne batch_key b.id a table, AreRows-save a bs table)

pub find_by_id-filter_by :
    (p : StorageItem → Bool) (i : ℕ) (bs : List StorageItem)
    → find_by_id batch_key i bs ≡ none
    → find_by_id batch_key i (filter_by p bs) ≡ none
find_by_id-filter_by p i [] h = refl
find_by_id-filter_by p i (b ∷ bs) h = ground (arith, find_by_id-filter_by p i bs)

-- Rows of a tail of a keyed table are rows of the table.
AreRows-cons :
    (a : StorageItem) (bs table : List StorageItem)
    → find_by_id batch_key a.id bs ≡ none
    → AreRows bs table
    → AreRows bs (a ∷ table)
AreRows-cons a [] table new rows = tt
AreRows-cons a (b ∷ bs) table new rows = ground (arith, AreRows-cons a bs table)

pub filter_by-AreRows :
    (p : StorageItem → Bool) (table : List StorageItem)
    → IsKeyed batch_key table
    → AreRows (filter_by p table) table
filter_by-AreRows p [] h = tt
filter_by-AreRows p (b ∷ bs) h = ground (
  arith,
  filter_by-AreRows p bs h.1,
  find_by_id-filter_by p b.id bs h.0,
  AreRows-cons b (filter_by p bs) bs,
)

pub sum_by-filter_by :
    (p : ℕ) (table : List StorageItem)
    → sum_by (held p) (filter_by (in_stock p) table) ≡ sum_by (held p) table
sum_by-filter_by p [] = refl
sum_by-filter_by p (b ∷ bs) = ground (arith, sum_by-filter_by p bs)

-- Every row of the query is a batch of the product.
abbrev pub AreOf : ℕ → List StorageItem → Type 0
AreOf p = All (λ b. b.product_id ≡ p)

pub filter_by-AreOf : (p : ℕ) (table : List StorageItem) → AreOf p (filter_by (in_stock p) table)
filter_by-AreOf p [] = tt
filter_by-AreOf p (b ∷ bs) = ground (arith, filter_by-AreOf p bs)

-- What the loop has taken is what the batches have lost; it stops short only if they are empty.
pub deduct_batches-sum :
    (p remaining : ℕ) (bs table : List StorageItem)
    → AreOf p bs
    → AreRows bs table
    → let (left, table') = deduct_batches remaining bs table in
      (sum_by (held p) table' + remaining ≡ sum_by (held p) table + left)
      × (left ≡ remaining - sum_by (held p) bs)
unfolding deduct_batches
deduct_batches-sum p remaining [] table mine rows = (refl, omega arith)
deduct_batches-sum p remaining (b ∷ bs) table mine rows =
    let deduct = min b.quantity remaining in
    let less : StorageItem = record b { quantity = b.quantity - deduct } in
    elim (Bool-cases (leb remaining 0)) [
      | inl stop ↦ rw stop (omega (arith, leb→le remaining 0 stop))
      | inr go ↦ rw go (
          ground (
            arith,
            mine.0,
            sum_by-save batch_key (held p) less b table rows.0,
            deduct_batches-sum p (remaining - deduct) bs (save batch_key less table) mine.1
                (AreRows-save less bs table rows.1 rows.2),
          ))
    ]

-- Batches of another product keep their quantities.
pub deduct_batches-sum_other :
    (p q remaining : ℕ) (bs table : List StorageItem)
    → p ≢ q
    → AreOf p bs
    → AreRows bs table
    → sum_by (held q) (deduct_batches remaining bs table).1 ≡ sum_by (held q) table
unfolding deduct_batches
deduct_batches-sum_other p q remaining [] table other mine rows = refl
deduct_batches-sum_other p q remaining (b ∷ bs) table other mine rows =
    let deduct = min b.quantity remaining in
    let less : StorageItem = record b { quantity = b.quantity - deduct } in
    elim (Bool-cases (leb remaining 0)) [
      | inl stop ↦ rw stop
      | inr go ↦ rw go (
          ground (
            arith,
            mine.0,
            sum_by-save batch_key (held q) less b table rows.0,
            deduct_batches-sum_other p q (remaining - deduct) bs (save batch_key less table) other
                mine.1 (AreRows-save less bs table rows.1 rows.2),
          ))
    ]

pub deduct_batches-IsKeyed :
    (remaining : ℕ) (bs table : List StorageItem)
    → IsKeyed batch_key table
    → IsKeyed batch_key (deduct_batches remaining bs table).1
unfolding deduct_batches
deduct_batches-IsKeyed remaining [] table h = h
deduct_batches-IsKeyed remaining (b ∷ bs) table h =
    let deduct = min b.quantity remaining in
    let less : StorageItem = record b { quantity = b.quantity - deduct } in
    elim (Bool-cases (leb remaining 0)) [
      | inl stop ↦ rw stop h
      | inr go ↦ rw go (
          deduct_batches-IsKeyed (remaining - deduct) bs (save batch_key less table)
            (save-IsKeyed batch_key less table h))
    ]
