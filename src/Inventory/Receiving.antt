-- ===== src/Inventory/Receiving.antt =====
-- The methods of InventoryService that also read or write products: `addToStorage`, `adjust`.
use salepoint_backend.Prelude.{
  ℕ, ◌+◌, ◌*◌, ◌/◌, Bool, true, Option, none, some, ltb, if◌then◌else◌, find_first,
}
use salepoint_backend.Prelude.Int.{ℤ, pos, ◌-ℤ◌, neg_part, negsuc}
use salepoint_backend.Exec.{
  Exec, pure, gets, or_raise, modify, ◌>>=◌, ◌>>◌, transaction, zoom, stock_record_not_found,
  product_not_found,
}
use salepoint_backend.Products.{Catalog, product_of, assert_quantity_for_unit, sync_price}
use salepoint_backend.Inventory.Defs.{
  Stock, StockLevel, StorageItem, StockMovementType, MarginType, percent, fixed, Note, text,
  of_product_shop, save_level, save_movement, insert_batch,
}
use salepoint_backend.Inventory.Service.{upsert_stock_level, deduct_oldest, received}

-- What the service reads and writes.
pub record Warehouse : Type 0 where
  pub catalog : Catalog
  pub stock : Stock

abbrev pub in_stock_tables : {A : Type 0} → Exec Stock A → Exec Warehouse A
in_stock_tables = zoom (λ w. w.stock) (λ s w. record w { stock = s })

abbrev pub in_catalog : {A : Type 0} → Exec Catalog A → Exec Warehouse A
in_catalog = zoom (λ w. w.catalog) (λ c w. record w { catalog = c })

-- `costPrice` and `sellingPrice` in cents; `margin` in hundredths, of a percent or of the currency
-- unit by its type. `syncProductPrice` is false only where the request says so.
pub record AddStorageDto : Type 0 where
  pub product_id : ℕ
  pub quantity : ℕ
  pub cost_price : ℕ
  pub margin : ℕ
  pub margin_type : Option MarginType
  pub selling_price : Option ℕ
  pub sync_product_price : Option Bool
  pub notes : Option Note

abbrev pub or_percent : Option MarginType → MarginType
or_percent none = percent
or_percent (some t) = t

-- `Number(derivedSellingPrice.toFixed(2))`: the nearest cent, a tie upwards.
unfoldable pub derived_selling_price : MarginType → ℕ → ℕ → ℕ
derived_selling_price fixed cost margin = cost + margin
derived_selling_price percent cost margin = (cost * (10_000 + margin) + 5_000) / 10_000

abbrev pub or_derived : Option ℕ → ℕ → ℕ
or_derived none derived = derived
or_derived (some price) derived = price

abbrev pub selling_price_of : AddStorageDto → ℕ
selling_price_of dto =
    or_derived dto.selling_price
      (derived_selling_price (or_percent dto.margin_type) dto.cost_price dto.margin)

-- `dto.syncProductPrice !== false`
abbrev pub wants_sync : Option Bool → Bool
wants_sync none = true
wants_sync (some b) = b

-- The batch that is received.
abbrev pub received_batch : AddStorageDto → ℕ → StorageItem
received_batch dto shop_id = record {
  id = 0;
  shop_id = some shop_id;
  product_id = dto.product_id;
  quantity = dto.quantity;
  initial_quantity = dto.quantity;
  cost_price = dto.cost_price;
  margin = dto.margin;
  margin_type = or_percent dto.margin_type;
  selling_price = selling_price_of dto;
  notes = dto.notes;
}

-- The writes of `addToStorage` in the stock tables.
unfoldable pub receive : AddStorageDto → ℕ → ℕ → Exec Stock (Unit {0})
receive dto performed_by shop_id = do
  modify (insert_batch (received_batch dto shop_id))
  level ← upsert_stock_level dto.product_id (some shop_id)
  modify (save_level (received level dto.quantity))
  modify (
      save_movement (record {
        shop_id = some shop_id;
        product_id = dto.product_id;
        kind = StockMovementType.purchase;
        quantity = pos dto.quantity;
        quantity_after = (received level dto.quantity).quantity_on_hand;
        reference = none;
        notes = dto.notes;
        performed_by = some performed_by;
      }))

unfoldable pub add_to_storage : AddStorageDto → ℕ → ℕ → Exec Warehouse (Unit {0})
unfolding assert_quantity_for_unit sync_price
add_to_storage dto performed_by shop_id = do
  product ←
      or_raise (← gets (λ w. product_of dto.product_id (some shop_id) w.catalog)) product_not_found
  assert_quantity_for_unit product dto.quantity
  in_stock_tables (receive dto performed_by shop_id)
  modify (λ w.
      if wants_sync dto.sync_product_price
      then record w {
        catalog = sync_price dto.product_id (selling_price_of dto) dto.cost_price w.catalog;
      }
      else w)

-- `quantity` is the absolute quantity on hand after the adjustment.
pub record AdjustStockDto : Type 0 where
  pub product_id : ℕ
  pub quantity : ℕ
  pub notes : Option Note

abbrev pub note_or : Option Note → Note → Note
note_or none d = d
note_or (some n) _ = n

-- The batch of a positive correction.
abbrev pub correcting_batch : AdjustStockDto → ℕ → ℕ → StorageItem
correcting_batch dto shop_id delta = record {
  id = 0;
  shop_id = some shop_id;
  product_id = dto.product_id;
  quantity = delta;
  initial_quantity = delta;
  cost_price = 0;
  margin = 0;
  margin_type = percent;
  selling_price = 0;
  notes = some (note_or dto.notes (text "Manual stock adjustment (positive correction)"));
}

-- The batches after an adjustment by `delta`: a correcting batch, or the oldest ones reduced by
-- `Math.abs(delta)`, as far as they go.
unfoldable pub correct_batches : AdjustStockDto → ℕ → ℤ → Stock → Stock
unfolding deduct_oldest
correct_batches dto shop_id (pos delta) s =
    if ltb 0 delta then insert_batch (correcting_batch dto shop_id delta) s else s
correct_batches dto shop_id (negsuc n) s = (deduct_oldest dto.product_id (neg_part (negsuc n)) s).1

-- The writes of `adjust`, with `delta` the quantity that the level is short of.
unfoldable pub adjust_by : AdjustStockDto → ℕ → ℕ → StockLevel → ℤ → Exec Stock StockLevel
unfolding correct_batches
adjust_by dto performed_by shop_id level delta = do
  modify (correct_batches dto shop_id delta)
  modify (save_level (record level { quantity_on_hand = pos dto.quantity }))
  modify (
      save_movement (record {
        shop_id = some shop_id;
        product_id = dto.product_id;
        kind = StockMovementType.adjust_;
        quantity = delta;
        quantity_after = pos dto.quantity;
        reference = none;
        notes = dto.notes;
        performed_by = some performed_by;
      }))
  pure (record level { quantity_on_hand = pos dto.quantity })

unfoldable pub adjust : AdjustStockDto → ℕ → ℕ → Exec Warehouse StockLevel
unfolding assert_quantity_for_unit
adjust dto performed_by shop_id = transaction (do
  level ←
      or_raise
        (← gets (λ w. find_first (of_product_shop dto.product_id (some shop_id)) w.stock.levels))
        stock_record_not_found
  product ←
      or_raise (← gets (λ w. product_of dto.product_id (some shop_id) w.catalog)) product_not_found
  assert_quantity_for_unit product dto.quantity
  in_stock_tables
      (adjust_by dto performed_by shop_id level (pos dto.quantity -ℤ level.quantity_on_hand)))
