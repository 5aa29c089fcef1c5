-- ===== src/Inventory/Sound.antt =====
-- The invariant of the stock tables: level, batches and movements of every product agree.
use salepoint_backend.Prelude.{
  ℕ, ◌≤◌, ◌<◌, ◌≡◌, ◌≢◌, sym, ap, ◌∙◌, Bool, true, false, ◌&&◌, Option, none, some, List, [], ◌∷◌,
  ◌++◌, ◌==◌, if◌then◌else◌, find_first, sum_by, inl, inr, Bool-cases, arith, ==→eq, ==_refl,
  find_first-holds,
}
use salepoint_backend.Prelude.Int.{ℤ, pos, ◌+ℤ◌, int_laws}
use salepoint_backend.Prelude.Table.{
  save, find_by_id, IsKeyed, IsBelow, save-IsKeyed, save-IsBelow, find_first-save_self,
  find_first-save_new, find_first-save_other, find_first-save_other_new, find_by_id-find_first,
}
use salepoint_backend.Inventory.Defs.{
  Stock, StockLevel, StorageItem, StockMovement, StockMovementType, level_key, batch_key,
  of_product, held,
}

-- What the level of a product shows; a product without a level has nothing.
abbrev pub on_hand_of : Option StockLevel → ℤ
on_hand_of none = pos 0
on_hand_of (some l) = l.quantity_on_hand

abbrev pub reserved_of : Option StockLevel → ℕ
reserved_of none = 0
reserved_of (some l) = l.quantity_reserved

abbrev pub level_in : ℕ → List StockLevel → Option StockLevel
level_in p levels = find_first (of_product p) levels

-- Reservations and releases move nothing.
abbrev pub is_physical : StockMovementType → Bool
is_physical StockMovementType.reserve = false
is_physical StockMovementType.release = false
is_physical _ = true

abbrev pub moved : ℕ → StockMovement → ℤ
moved p m = if (m.product_id == p) && is_physical m.kind then m.quantity else pos 0

-- The sum of the movements of a product.
abbrev pub net : ℕ → List StockMovement → ℤ
net p [] = pos 0
net p (m ∷ ms) = moved p m +ℤ net p ms

pub record IsSound (s : Stock) : Type 0 where
  pub levels_keyed : IsKeyed level_key s.levels
  pub batches_keyed : IsKeyed batch_key s.batches
  pub levels_below : IsBelow level_key s.next_id s.levels
  pub batches_below : IsBelow batch_key s.next_id s.batches
  pub counted : (p : ℕ) → on_hand_of (level_in p s.levels) ≡ pos (sum_by (held p) s.batches)
  pub journaled : (p : ℕ) → on_hand_of (level_in p s.levels) ≡ net p s.movements

-- No more is reserved than the batches hold.
pub record IsCovered (s : Stock) : Type 0 where
  pub covered : (p : ℕ) → reserved_of (level_in p s.levels) ≤ sum_by (held p) s.batches

net-append :
    (p : ℕ) (ms : List StockMovement) (m : StockMovement)
    → net p (ms ++ m ∷ []) ≡ net p ms +ℤ moved p m
net-append p [] m = omega int_laws
net-append p (x ∷ ms) m = rw (net-append p ms m) (omega int_laws)

-- What the queries by product find after the write of a level.
abbrev pub IsWritten : ℕ → StockLevel → List StockLevel → Type 0
IsWritten p l levels =
    (q : ℕ) → level_in q (save level_key l levels) ≡ (if p == q then some l else level_in q levels)

pub IsWritten-old :
    (p : ℕ) (old l : StockLevel) (levels : List StockLevel)
    → IsKeyed level_key levels
    → level_in p levels ≡ some old
    → l.id ≡ old.id
    → l.product_id ≡ old.product_id
    → IsWritten p l levels
IsWritten-old p old l levels keyed found key product q =
    let own : (old.product_id == p) ≡ true = find_first-holds (of_product p) levels old found in
    let mine : (l.product_id == p) ≡ true = rw product own in
    let row : find_by_id level_key old.id levels ≡ some old =
      find_by_id-find_first level_key (of_product p) levels old keyed found in
    elim (Bool-cases (p == q)) [
      | inl same ↦ rw (← ==→eq p q same) (
          rw (==_refl p)
            (find_first-save_self level_key (of_product p) l old levels found key mine))
      | inr other ↦ rw other (
          find_first-save_other level_key (of_product q) l old levels (rw key row) (ground arith)
            (ground arith))
    ]

pub IsWritten-new :
    (p : ℕ) (l : StockLevel) (levels : List StockLevel)
    → level_in p levels ≡ none
    → find_by_id level_key l.id levels ≡ none
    → l.product_id ≡ p
    → IsWritten p l levels
IsWritten-new p l levels missing fresh product q =
    let mine : (l.product_id == p) ≡ true = rw product (==_refl p) in
    elim (Bool-cases (p == q)) [
      | inl same ↦ rw (← ==→eq p q same) (
          rw (==_refl p) (find_first-save_new level_key (of_product p) l levels missing fresh mine))
      | inr other ↦
          rw other
            (find_first-save_other_new level_key (of_product q) l levels fresh (ground arith))
    ]

-- One level, the batches of its product and one movement are written together.
pub IsSound-write :
    (p : ℕ) (l : StockLevel) (batches : List StorageItem) (m : StockMovement) (n : ℕ) {s : Stock}
    → IsSound s
    → IsWritten p l s.levels
    → l.id < n
    → IsBelow level_key n s.levels
    → IsKeyed batch_key batches
    → IsBelow batch_key n batches
    → ((q : ℕ) → p ≢ q → sum_by (held q) batches ≡ sum_by (held q) s.batches)
    → m.product_id ≡ p
    → l.quantity_on_hand ≡ pos (sum_by (held p) batches)
    → l.quantity_on_hand ≡ on_hand_of (level_in p s.levels) +ℤ moved p m
    → IsSound (record {
      levels = save level_key l s.levels;
      batches = batches;
      movements = s.movements ++ (m ∷ []);
      next_id = n;
    })
IsSound-write p l batches m n {s} sound written fresh below keyed below' others product counted
      journaled =
    record {
      levels_keyed = save-IsKeyed level_key l s.levels sound.levels_keyed;
      batches_keyed = keyed;
      levels_below = save-IsBelow level_key n l s.levels fresh below;
      batches_below = below';
      counted = λ q. elim (Bool-cases (p == q)) [
        | inl same ↦ rw (written q) (rw same (rw (← ==→eq p q same) counted))
        | inr other ↦
            rw (written q)
              (rw other (sound.counted q ∙ ap pos (sym (others q (λ e. ground arith)))))
      ];
      journaled = λ q. elim (Bool-cases (p == q)) [
        | inl same ↦ rw (written q) (
            rw same (
              rw (net-append q s.movements m)
                (rw (← sound.journaled q) (rw (← ==→eq p q same) journaled))))
        | inr other ↦
            let still : moved q m ≡ pos 0 = ground arith in
            rw (written q) (
              rw other (
                rw (net-append q s.movements m)
                  (rw still (rw (sound.journaled q) (omega int_laws)))))
      ];
    }

pub IsCovered-write :
    (p : ℕ) (l : StockLevel) (batches : List StorageItem) (ms : List StockMovement) (n : ℕ)
    {s : Stock}
    → IsCovered s
    → IsWritten p l s.levels
    → ((q : ℕ) → p ≢ q → sum_by (held q) batches ≡ sum_by (held q) s.batches)
    → l.quantity_reserved ≤ sum_by (held p) batches
    → IsCovered (record {
      levels = save level_key l s.levels;
      batches = batches;
      movements = ms;
      next_id = n;
    })
IsCovered-write p l batches ms n {s} safe written others enough = record {
  covered = λ q. elim (Bool-cases (p == q)) [
    | inl same ↦ rw (written q) (rw same (rw (← ==→eq p q same) enough))
    | inr other ↦ rw (written q) (rw other (rw (others q (λ e. ground arith)) (safe.covered q)))
  ];
}

pub record IsSafe (s : Stock) : Type 0 where
  pub sound : IsSound s
  pub cover : IsCovered s
