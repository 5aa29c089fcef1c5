-- ===== src/Inventory/Service.antt =====
-- The methods of InventoryService that change stock.
use salepoint_backend.Prelude.{
  ℕ, ◌+◌, ◌-◌, Option, none, some, List, [], ◌∷◌, min, leb, ltb, if◌then◌else◌, find_first,
  filter_by, Bool, not, ◌&&◌, ◌||◌,
}
use salepoint_backend.Prelude.Int.{ℤ, pos, ◌+ℤ◌, ◌-ℤ◌, ltb_ℤ}
use salepoint_backend.Prelude.Table.{save}
use salepoint_backend.Double as Double
use salepoint_backend.Double.{of_thousandths}
use salepoint_backend.Exec.{
  Exec, pure, gets, or_raise, raise_if, modify, ◌>>=◌, ◌>>◌, stock_record_not_found,
  insufficient_stock, insufficient_storage,
}
use salepoint_backend.Inventory.Defs.{
  Stock, StockLevel, StorageItem, StockMovementType, percent, return_of, level_of, of_product_shop,
  in_stock, batch_key, save_level, save_movement, insert_batch,
}

-- The private `upsertStockLevel`: a created level is not saved yet; it takes its key from the
-- database when it is.
upserted : ℕ → Option ℕ → Option StockLevel → Exec Stock StockLevel
upserted product_id shop_id (some existing) s = pure existing s
upserted product_id shop_id none s =
    pure
      (record {
        id = s.next_id;
        shop_id = shop_id;
        product_id = product_id;
        quantity_on_hand = pos 0;
        quantity_reserved = 0;
        reorder_point = 5_000;
      })
      (record s { next_id = s.next_id + 1 })

unfoldable pub upsert_stock_level : ℕ → Option ℕ → Exec Stock StockLevel
unfolding upserted
upsert_stock_level product_id shop_id s =
    upserted product_id shop_id (find_first (of_product_shop product_id shop_id) s.levels) s

-- Whether r + n thousandths less r come out below n in doubles, as 0.3 - 0.2 does below 0.1.
unfoldable pub rounds_short : ℕ → ℕ → Bool
rounds_short r n = ltb (Double.sub (of_thousandths (r + n)) (of_thousandths r)) (of_thousandths n)

-- `quantityOnHand - quantityReserved < quantity`, of columns below 10^11: their doubles are off by
-- less than half a thousandth, so that they decide only where the two sides are equal.
abbrev pub is_short : ℤ → ℕ → ℕ → Bool
is_short on_hand reserved quantity =
    ltb_ℤ (on_hand -ℤ pos reserved) (pos quantity)
    || (not (ltb_ℤ (pos quantity) (on_hand -ℤ pos reserved)) && rounds_short reserved quantity)

unfoldable pub reserve_stock : ℕ → ℕ → Exec Stock (Unit {0})
reserve_stock product_id quantity = do
  level ← or_raise (← gets (level_of product_id)) stock_record_not_found
  raise_if (is_short level.quantity_on_hand level.quantity_reserved quantity) insufficient_stock
  modify (save_level (record level { quantity_reserved = level.quantity_reserved + quantity }))
  modify (
      save_movement (record {
        shop_id = level.shop_id;
        product_id = product_id;
        kind = StockMovementType.reserve;
        quantity = pos 0 -ℤ pos quantity;
        quantity_after = level.quantity_on_hand;
        reference = none;
        notes = none;
        performed_by = none;
      }))

-- `Math.max(0, reserved - quantity)` is the subtraction of ℕ.
abbrev released : StockLevel → ℕ → StockLevel
released level quantity = record level { quantity_reserved = level.quantity_reserved - quantity }

release_level : ℕ → ℕ → Option StockLevel → Exec Stock (Unit {0})
release_level product_id quantity none = pure tt
release_level product_id quantity (some level) = do
  modify (save_level (released level quantity))
  modify (
      save_movement (record {
        shop_id = level.shop_id;
        product_id = product_id;
        kind = StockMovementType.release;
        quantity = pos quantity;
        quantity_after = level.quantity_on_hand;
        reference = none;
        notes = none;
        performed_by = none;
      }))

unfoldable pub release_stock : ℕ → ℕ → Exec Stock (Unit {0})
unfolding release_level
release_stock product_id quantity = do
  found ← gets (level_of product_id)
  release_level product_id quantity found

-- The loop over the batches that the query found, oldest first: what remains to be deducted, and
-- the table.
unfoldable pub deduct_batches : ℕ → List StorageItem → List StorageItem → ℕ × List StorageItem
deduct_batches remaining [] table = (remaining, table)
deduct_batches remaining (batch ∷ rest) table =
    let deduct = min batch.quantity remaining in
    let next =
      deduct_batches (remaining - deduct) rest
        (save batch_key (record batch { quantity = batch.quantity - deduct }) table) in
    if leb remaining 0 then (remaining, table) else next

-- `remaining` at the end of the loop as the double that it is: 0.8 - 0.7 - 0.1 leaves 8.3e-17.
unfoldable pub drained : ℕ → List StorageItem → ℕ
drained remaining [] = remaining
drained remaining (batch ∷ rest) =
    let next =
      drained (Double.sub remaining (min (of_thousandths batch.quantity) remaining)) rest in
    if leb remaining 0 then remaining else next

-- The same loop with its query and its writes, and whether anything remains. What is left in
-- doubles after the last thousandth changes no column, which rounds to thousandths.
unfoldable pub deduct_oldest : ℕ → ℕ → Exec Stock Bool
unfolding deduct_batches drained
deduct_oldest product_id quantity s =
    let found = filter_by (in_stock product_id) s.batches in
    let (remaining, table) = deduct_batches quantity found s.batches in
    pure (ltb 0 remaining || ltb 0 (drained (of_thousandths quantity) found))
      (record s { batches = table })

abbrev pub sold : StockLevel → ℕ → StockLevel
sold level quantity = record level {
  quantity_on_hand = level.quantity_on_hand -ℤ pos quantity;
  quantity_reserved = level.quantity_reserved - quantity;
}

-- `if (level) { …; save }`, and the fields of the movement that depend on it.
sell_level : ℕ → Option StockLevel → Exec Stock (Option ℕ × ℤ)
sell_level quantity none = pure (none, pos 0)
sell_level quantity (some level) = do
  modify (save_level (sold level quantity))
  pure (level.shop_id, level.quantity_on_hand -ℤ pos quantity)

unfoldable pub deduct_from_storage : ℕ → ℕ → ℕ → Exec Stock (Unit {0})
unfolding deduct_oldest sell_level
deduct_from_storage product_id quantity reference = do
  remains ← deduct_oldest product_id quantity
  raise_if remains insufficient_storage
  found ← gets (level_of product_id)
  after ← sell_level quantity found
  modify (
      save_movement (record {
        shop_id = after.0;
        product_id = product_id;
        kind = StockMovementType.sale;
        quantity = pos 0 -ℤ pos quantity;
        quantity_after = after.1;
        reference = some reference;
        notes = none;
        performed_by = none;
      }))

abbrev pub received : StockLevel → ℕ → StockLevel
received level quantity = record level { quantity_on_hand = level.quantity_on_hand +ℤ pos quantity }

-- The batch that a return brings back.
abbrev pub returned_batch : Option ℕ → ℕ → ℕ → ℕ → ℕ → StorageItem
returned_batch shop_id product_id quantity selling_price reference = record {
  id = 0;
  shop_id = shop_id;
  product_id = product_id;
  quantity = quantity;
  initial_quantity = quantity;
  cost_price = 0;
  margin = 0;
  margin_type = percent;
  selling_price = selling_price;
  notes = some (return_of reference);
}

unfoldable pub return_to_storage : ℕ → ℕ → ℕ → ℕ → ℕ → Exec Stock (Unit {0})
return_to_storage product_id quantity selling_price reference performed_by = do
  level ← upsert_stock_level product_id none
  modify (insert_batch (returned_batch level.shop_id product_id quantity selling_price reference))
  modify (save_level (received level quantity))
  modify (
      save_movement (record {
        shop_id = level.shop_id;
        product_id = product_id;
        kind = StockMovementType.return_;
        quantity = pos quantity;
        quantity_after = level.quantity_on_hand +ℤ pos quantity;
        reference = some reference;
        notes = none;
        performed_by = some performed_by;
      }))
