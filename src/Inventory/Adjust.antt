-- ===== src/Inventory/Adjust.antt =====
-- `adjust`: the absolute quantity of a product is set by hand.
use salepoint_backend.Prelude.{
  ℕ, suc, ◌+◌, ◌≤◌, ltb, ==_refl, ◌≡◌, ◌≢◌, refl, not, ◌&&◌, some, sum_by, inl, inr, Bool-cases,
  Option-cases, arith,
}
use salepoint_backend.Prelude.Int.{ℤ, pos, negsuc, ◌-ℤ◌, int_laws}
use salepoint_backend.Prelude.Table.{
  find_first-IsBelow, IsKeyed, IsBelow, save-IsBelow, save-IsKeyed, IsBelow-mono,
}
use salepoint_backend.Products.{product_of, is_piece, is_whole}
use salepoint_backend.Inventory.Defs.{
  Stock, StockLevel, StorageItem, level_key, batch_key, of_product, held, level_of,
}
use salepoint_backend.Inventory.Receiving.{
  Warehouse, AdjustStockDto, correct_batches, correcting_batch, adjust_by, adjust,
}
use salepoint_backend.Inventory.Sound.{IsSound, IsWritten-old, IsSound-write, level_in}
use salepoint_backend.Inventory.Reserve.{on_hand-found}
use salepoint_backend.Inventory.Deduct.{
  sum_by-after_deduct, sum_by-after_deduct_other, after_deduct-IsKeyed, after_deduct-IsBelow,
}
use salepoint_backend.Inventory.Receive.{
  IsLevelOf, of_shop_found, of_shop_missing, sum_by-insert, keyed_by,
}

abbrev set_to : StockLevel → ℕ → StockLevel
set_to l n = record l { quantity_on_hand = pos n }

-- What the correction of the batches must give for a level that is set to n.
pub record IsCorrected (p n : ℕ) (s s' : Stock) : Type 0 where
  pub same_levels : s'.levels ≡ s.levels
  pub same_movements : s'.movements ≡ s.movements
  pub later : s.next_id ≤ s'.next_id
  pub keyed : IsKeyed batch_key s'.batches
  pub below : IsBelow batch_key s'.next_id s'.batches
  pub holds : sum_by (held p) s'.batches ≡ n
  pub others : (q : ℕ) → p ≢ q → sum_by (held q) s'.batches ≡ sum_by (held q) s.batches

short_by : (d a b : ℕ) → pos d ≡ pos a -ℤ pos b → a ≡ b + d
unfolding ◌-ℤ◌
short_by d a b e = ground arith

over_by : (d a b : ℕ) → negsuc d ≡ pos a -ℤ pos b → b ≡ a + suc d
unfolding ◌-ℤ◌
over_by d a b e = ground arith

correct_batches-IsCorrected :
    (dto : AdjustStockDto) (shop : ℕ) (delta : ℤ) (s : Stock)
    → IsSound s
    → delta ≡ pos dto.quantity -ℤ pos (sum_by (held dto.product_id) s.batches)
    → IsCorrected dto.product_id dto.quantity s (correct_batches dto shop delta s)
unfolding correct_batches
correct_batches-IsCorrected dto shop (pos delta) s sound short = elim (Bool-cases (ltb 0 delta)) [
  | inl more ↦
      let p = dto.product_id in
      let k = s.next_id in
      let b : StorageItem = correcting_batch dto shop delta in
      let below = sound.batches_below in
      rw more (record {
        same_levels = refl;
        same_movements = refl;
        later = omega arith;
        keyed = save-IsKeyed batch_key (keyed_by k b) s.batches sound.batches_keyed;
        below =
            save-IsBelow batch_key (k + 1) (keyed_by k b) s.batches (omega arith)
              (IsBelow-mono batch_key k (k + 1) s.batches (omega arith) below);
        holds = rw (sum_by-insert p k b s.batches below) (
            rw (==_refl p)
              (omega (arith, short_by delta dto.quantity (sum_by (held p) s.batches) short)));
        others = λ q other. rw (sum_by-insert q k b s.batches below) (ground arith);
      })
  | inr exact ↦ rw exact (record {
    same_levels = refl;
    same_movements = refl;
    later = omega arith;
    keyed = sound.batches_keyed;
    below = sound.batches_below;
    holds =
        let gap = short_by delta dto.quantity (sum_by (held dto.product_id) s.batches) short in
        ground arith;
    others = λ q _. refl;
  })
]
correct_batches-IsCorrected dto shop (negsuc d) s sound short =
    let p = dto.product_id in
    record {
      same_levels = refl;
      same_movements = refl;
      later = omega arith;
      keyed = after_deduct-IsKeyed p (suc d) s.batches sound.batches_keyed;
      below = after_deduct-IsBelow s.next_id p (suc d) s.batches sound.batches_below;
      holds =
          rw (sum_by-after_deduct p (suc d) s.batches sound.batches_keyed)
            (omega (arith, over_by d dto.quantity (sum_by (held p) s.batches) short));
      others = sum_by-after_deduct_other p (suc d) s.batches sound.batches_keyed;
    }

-- From sound stock tables, with the level that the query found for the product, the writes of `adjust` by the missing quantity keep the tables sound: the batches again hold what the level shows, which is the quantity that was asked for.
adjust_by-IsSound :
    (dto : AdjustStockDto) (by shop : ℕ) (l : StockLevel) (s : Stock)
    → IsSound s
    → level_in dto.product_id s.levels ≡ some l
    → IsSound (adjust_by dto by shop l (pos dto.quantity -ℤ l.quantity_on_hand) s).1
unfolding adjust_by
adjust_by-IsSound dto by shop l s sound found =
    let p = dto.product_id in
    let whole = on_hand-found p l sound found in
    let delta = pos dto.quantity -ℤ l.quantity_on_hand in
    let c = correct_batches-IsCorrected dto shop delta s sound (rw whole) in
    let s' : Stock = correct_batches dto shop delta s in
    let old =
      find_first-IsBelow level_key s.next_id (of_product p) s.levels l sound.levels_below found in
    rw (c.same_levels) (
      rw (c.same_movements) (
        IsSound-write p (set_to l dto.quantity) s'.batches _ s'.next_id sound
          (IsWritten-old p l (set_to l dto.quantity) s.levels sound.levels_keyed found refl refl)
          (omega (arith, old, c.later))
          (IsBelow-mono level_key s.next_id s'.next_id s.levels c.later sound.levels_below) c.keyed
          c.below c.others refl (rw c.holds) (rw found (rw (==_refl p) (omega int_laws)))))

-- `adjust` keeps the stock tables sound, whether it returns or throws, if the product's level, where it has one, is a level of the shop.
pub adjust-IsSound :
    (dto : AdjustStockDto) (by shop : ℕ) (w : Warehouse)
    → IsSound w.stock
    → IsLevelOf dto.product_id shop w.stock
    → IsSound (adjust dto by shop w).1.stock
unfolding adjust adjust_by
adjust-IsSound dto by shop w sound own =
    let p = dto.product_id in
    elim (Option-cases (level_of p w.stock)) [
      | inl missing ↦ rw (of_shop_missing p shop w.stock.levels missing) sound
      | inr (l, found) ↦
          let after = adjust_by-IsSound dto by shop l w.stock sound found in
          rw (of_shop_found p shop l w.stock.levels found (own l found))
            (elim (Option-cases (product_of p (some shop) w.catalog)) [
              | inl missing ↦ rw missing sound
              | inr (product, hit) ↦
                  let bad = is_piece product.unit_type && not (is_whole dto.quantity) in
                  rw hit (elim (Bool-cases bad) [
                    | inl broken ↦ rw broken sound
                    | inr fits ↦ rw fits after
                  ])
            ])
    ]
