-- ===== src/Inventory/Listing.antt =====
-- `getStorageBatches`, `getStockLevel`, `findMovements` and `getWarehouse` of inventory.service.ts.
-- The rows of a table are in the order of creation; `sort` is the ORDER BY of the query.
use salepoint_backend.Prelude.{
  ℕ, ◌==◌, Bool, false, not, ◌&&◌, Option, none, some, List, find_first,
}
use salepoint_backend.Prelude.Table.{find_by_id}
use salepoint_backend.Exec.{Result, ok, err, stock_record_not_found}
use salepoint_backend.Pagination.{PaginationQuery, PaginatedResult, page_of}
use salepoint_backend.Products.{Product, product_key}
use salepoint_backend.Inventory.Defs.{
  StockLevel, StorageItem, StockMovement, is_shop, of_product_shop,
}

unfoldable pub get_storage_batches :
    ℕ → ℕ → PaginationQuery → List StorageItem → PaginatedResult StorageItem
unfolding page_of
get_storage_batches product shop =
    page_of (λ rows. rows) (λ b. is_shop b.shop_id shop && b.product_id == product)

abbrev level_or : Option StockLevel → Result StockLevel
level_or none = err stock_record_not_found
level_or (some l) = ok l

unfoldable pub get_stock_level : ℕ → ℕ → List StockLevel → Result StockLevel
get_stock_level product shop levels =
    level_or (find_first (of_product_shop product (some shop)) levels)

unfoldable pub find_movements :
    (List StockMovement → List StockMovement)
    → ℕ
    → ℕ
    → PaginationQuery
    → List StockMovement
    → PaginatedResult StockMovement
unfolding page_of
find_movements sort product shop =
    page_of sort (λ m. is_shop m.shop_id shop && m.product_id == product)

-- `p.isActive = true` of the LEFT JOIN, which does not see the rows that are soft-deleted.
abbrev pub is_active_product : Option Product → Bool
is_active_product none = false
is_active_product (some p) = p.is_active && not p.deleted

unfoldable pub get_warehouse :
    (List StockLevel → List StockLevel)
    → List Product
    → ℕ
    → PaginationQuery
    → List StockLevel
    → PaginatedResult StockLevel
unfolding page_of
get_warehouse sort products shop = page_of sort (λ l.
    is_shop l.shop_id shop && is_active_product (find_by_id product_key l.product_id products))
