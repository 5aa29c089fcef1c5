-- ===== src/Tests/StockCases.antt =====
-- The theorems of the inventory at sample tables.
use salepoint_backend.Prelude.{
  ℕ, ◌+◌, ◌≤◌, ◌<◌, ◌≡◌, ◌⊎◌, ◌↔◌, false, refl, sym, ap, Option, none, some, sum_by, filter_by,
  arith,
}
use salepoint_backend.Prelude.Int.{pos, ◌+ℤ◌}
use salepoint_backend.Exec.{ok}
use salepoint_backend.Double as Double
use salepoint_backend.Products.{find_raw_by_id}
use salepoint_backend.Inventory.{
  StockLevel, rounds_short, drained, held, level_of, in_stock, reserve_stock, deduct_batches,
  deduct_from_storage, return_to_storage, deduct_oldest, upsert_stock_level, AddStorageDto,
  AdjustStockDto, add_to_storage, adjust, receive, derived_selling_price, Warehouse,
}
use salepoint_backend.Inventory.Sound.{IsSafe, IsSound}
use salepoint_backend.Inventory.Oldest.{OldestFirst, deduct_batches-OldestFirst}
use salepoint_backend.Inventory.Reserve.{reserve_stock_iff, reserve_stock_whole}
use salepoint_backend.Inventory.Deduct.{deduct_from_storage-IsSafe}
use salepoint_backend.Inventory.Receive.{return_to_storage-IsSafe, add_to_storage-IsSafe, IsLevelOf}
use salepoint_backend.Inventory.Adjust.{adjust-IsSound}
use salepoint_backend.Tests.Samples.{no_stock, some_stock, catalog}

no_stock-IsSafe : IsSafe no_stock
no_stock-IsSafe = record {
  sound = record {
    levels_keyed = tt;
    batches_keyed = tt;
    levels_below = tt;
    batches_below = tt;
    counted = λ p. refl;
    journaled = λ p. refl;
  };
  cover = record { covered = λ p. omega arith };
}

pub some_stock-IsSafe : IsSafe some_stock
some_stock-IsSafe = return_to_storage-IsSafe 7 5000 300 9 1 no_stock no_stock-IsSafe

two_deducted : (deduct_from_storage 7 2000 9 some_stock).0 ≡ ok tt
unfolding deduct_from_storage deduct_oldest deduct_batches return_to_storage upsert_stock_level
    drained Double.of_ratio Double.sub
two_deducted = refl

deduct_from_storage-IsSafe_example : IsSafe (deduct_from_storage 7 2000 9 some_stock).1
deduct_from_storage-IsSafe_example =
    deduct_from_storage-IsSafe 7 2000 9 some_stock some_stock-IsSafe (omega arith) two_deducted

deduct_batches-OldestFirst_example :
    OldestFirst 7 some_stock.batches
      (deduct_batches 2000 (filter_by (in_stock 7) some_stock.batches) some_stock.batches).1
deduct_batches-OldestFirst_example =
    deduct_batches-OldestFirst 7 2000 some_stock.batches some_stock-IsSafe.sound.batches_keyed

abbrev some_level : StockLevel
some_level = record {
  id = 0;
  shop_id = none;
  product_id = 7;
  quantity_on_hand = pos 5000;
  quantity_reserved = 0;
  reorder_point = 5000;
}

some_level_found : level_of 7 some_stock ≡ some some_level
unfolding return_to_storage upsert_stock_level ◌+ℤ◌
some_level_found = refl

reserve_stock_iff_example : ((reserve_stock 7 2000 some_stock).0 ≡ ok tt) ↔ (
    (0 + 2000 < sum_by (held 7) some_stock.batches)
    ⊎ ((0 + 2000 ≡ sum_by (held 7) some_stock.batches) × (rounds_short 0 2000 ≡ false)))
reserve_stock_iff_example =
    reserve_stock_iff 7 2000 some_level some_stock some_stock-IsSafe some_level_found

reserve_stock_whole_example :
    ((reserve_stock 7 2000 some_stock).0 ≡ ok tt) ↔ (0 + 2000 ≤ sum_by (held 7) some_stock.batches)
reserve_stock_whole_example =
    reserve_stock_whole 7 0 2 some_level some_stock some_stock-IsSafe some_level_found refl
      (omega arith)

abbrev new_batch : AddStorageDto
new_batch = record {
  product_id = 7;
  quantity = 3000;
  cost_price = 200;
  margin = 5000;
  margin_type = none;
  selling_price = none;
  sync_product_price = none;
  notes = none;
}

abbrev empty_warehouse : Warehouse
empty_warehouse = record { catalog = catalog; stock = no_stock }

no_level : IsLevelOf 7 1 no_stock
no_level l q = cc

abbrev stocktake : AdjustStockDto
stocktake = record { product_id = 7; quantity = 4000; notes = none }

abbrev stocked : Warehouse
stocked = (add_to_storage new_batch 2 1 empty_warehouse).1

abbrev shop_of : Option StockLevel → Option ℕ
shop_of none = none
shop_of (some l) = l.shop_id

stocked_level : IsLevelOf 7 1 stocked.stock
unfolding add_to_storage receive upsert_stock_level find_raw_by_id derived_selling_price
stocked_level l q = sym (ap shop_of q)

adjust-IsSound_example : IsSound (adjust stocktake 2 1 stocked).1.stock
adjust-IsSound_example =
    adjust-IsSound stocktake 2 1 stocked
      (add_to_storage-IsSafe new_batch 2 1 empty_warehouse no_stock-IsSafe no_level).sound
      stocked_level
