-- ===== src/Tenancy.antt =====
-- The lists of orders.service.ts, debts.service.ts and inventory.service.ts by the shop of the
-- caller.
use salepoint_backend.Prelude.{
  ℕ, ◌==◌, ==→eq, ◌≡◌, Bool, true, ◌&&◌, Option, none, some, List, String, All, arith,
}
use salepoint_backend.Prelude.Table.{find_by_id}
use salepoint_backend.Pagination.{PaginationQuery, page_of-All, KeepsRows}
use salepoint_backend.Products.{Product, product_key}
use salepoint_backend.Inventory.{
  StockLevel, StorageItem, StockMovement, is_shop, get_storage_batches, find_movements,
  get_warehouse, is_active_product,
}
use salepoint_backend.Entities.{Order, Debt}
use salepoint_backend.Database.{Db}
use salepoint_backend.Orders.{OrderQuery, is_wanted, is_customer, find_by_customer}
use salepoint_backend.Orders as Orders
use salepoint_backend.Debts.{DebtQuery, is_asked}
use salepoint_backend.Debts as Debts

is_shop→some : (s : Option ℕ) (shop : ℕ) → is_shop s shop ≡ true → s ≡ some shop
is_shop→some none shop e = cc
is_shop→some (some t) shop e = ground (arith, ==→eq t shop)

-- A row of the shop; levels, batches and movements may have none.
abbrev pub IsOf : ℕ → Option ℕ → Type 0
IsOf shop s = s ≡ some shop

module _ (shop : ℕ) (page : PaginationQuery) where
  orders-AllOwn :
      (ilike : String → String → Bool) (created_at : Order → ℕ) (sort : List Order → List Order)
      (q : OrderQuery) (rows : List Order)
      → KeepsRows sort
      → All
          (λ (o : Order). o.shop_id ≡ shop)
          (Orders.find_all ilike created_at sort (some shop) q rows).items
  unfolding Orders.find_all is_wanted
  orders-AllOwn ilike created_at sort q rows keeps =
      page_of-All (λ (o : Order). o.shop_id ≡ shop) sort (is_wanted ilike created_at (some shop) q)
        q.page rows keeps (λ o h. ground (arith, h))

  customer_orders-AllOwn :
      (sort : List Order → List Order) (customer : ℕ) (rows : List Order)
      → KeepsRows sort
      → All (λ (o : Order). o.shop_id ≡ shop) (find_by_customer sort customer shop page rows).items
  unfolding find_by_customer
  customer_orders-AllOwn sort customer rows keeps =
      page_of-All (λ (o : Order). o.shop_id ≡ shop) sort
        (λ o. is_customer customer o.customer_id && o.shop_id == shop) page rows keeps
        (λ o h. ground (arith, h))

  debts-AllOwn :
      (sort : List Debt → List Debt) (orders : List Order) (q : DebtQuery) (rows : List Debt)
      → KeepsRows sort
      → All (λ (d : Debt). d.shop_id ≡ shop) (Debts.find_all sort orders (some shop) q rows).items
  unfolding Debts.find_all is_asked
  debts-AllOwn sort orders q rows keeps =
      page_of-All (λ (d : Debt). d.shop_id ≡ shop) sort (is_asked orders (some shop) q) q.page rows
        keeps (λ d h. ground (arith, h))

  batches-AllOwn :
      (product : ℕ) (rows : List StorageItem)
      → All
          (λ (b : StorageItem). IsOf shop b.shop_id)
          (get_storage_batches product shop page rows).items
  unfolding get_storage_batches
  batches-AllOwn product rows =
      page_of-All (λ (b : StorageItem). IsOf shop b.shop_id) (λ xs. xs)
        (λ b. is_shop b.shop_id shop && b.product_id == product) page rows (λ P xs h. h)
        (λ b h. is_shop→some b.shop_id shop (ground (arith, h)))

  movements-AllOwn :
      (sort : List StockMovement → List StockMovement) (product : ℕ) (rows : List StockMovement)
      → KeepsRows sort
      → All
          (λ (m : StockMovement). IsOf shop m.shop_id)
          (find_movements sort product shop page rows).items
  unfolding find_movements
  movements-AllOwn sort product rows keeps =
      page_of-All (λ (m : StockMovement). IsOf shop m.shop_id) sort
        (λ m. is_shop m.shop_id shop && m.product_id == product) page rows keeps
        (λ m h. is_shop→some m.shop_id shop (ground (arith, h)))

  levels-AllOwn :
      (sort : List StockLevel → List StockLevel) (products : List Product) (rows : List StockLevel)
      → KeepsRows sort
      → All
          (λ (l : StockLevel). IsOf shop l.shop_id)
          (get_warehouse sort products shop page rows).items
  unfolding get_warehouse
  levels-AllOwn sort products rows keeps =
      page_of-All (λ (l : StockLevel). IsOf shop l.shop_id) sort
        (λ l.
          is_shop l.shop_id shop
          && is_active_product (find_by_id product_key l.product_id products))
        page rows keeps (λ l h. is_shop→some l.shop_id shop (ground (arith, h)))

-- The ORDER BY of each list.
pub record Sorts : Type 0 where
  pub orders : List Order → List Order
  pub debts : List Debt → List Debt
  pub movements : List StockMovement → List StockMovement
  pub levels : List StockLevel → List StockLevel

pub record AreSorts (sorts : Sorts) : Type 1 where
  pub orders : KeepsRows sorts.orders
  pub debts : KeepsRows sorts.debts
  pub movements : KeepsRows sorts.movements
  pub levels : KeepsRows sorts.levels

-- Where sorting drops and adds no row: a page of orders or debts, whatever it is asked for, and a page of the orders of a customer, of the batches or the movements of a product, or of the stock levels of a shop, shows only rows of the caller's shop.
pub pages-AllOwn :
    (ilike : String → String → Bool) (created_at : Order → ℕ) (sorts : Sorts) (db : Db)
    (shop customer product : ℕ) (page : PaginationQuery) (q : OrderQuery) (d : DebtQuery)
    → AreSorts sorts
    → let s = db.warehouse.stock in
      let products = db.warehouse.catalog.products in
      All
        (λ (o : Order). o.shop_id ≡ shop)
        (Orders.find_all ilike created_at sorts.orders (some shop) q db.orders).items
      × All
          (λ (o : Order). o.shop_id ≡ shop)
          (find_by_customer sorts.orders customer shop page db.orders).items
      × All
          (λ (x : Debt). x.shop_id ≡ shop)
          (Debts.find_all sorts.debts db.orders (some shop) d db.debts).items
      × All
          (λ (b : StorageItem). IsOf shop b.shop_id)
          (get_storage_batches product shop page s.batches).items
      × All
          (λ (m : StockMovement). IsOf shop m.shop_id)
          (find_movements sorts.movements product shop page s.movements).items
      × All
          (λ (l : StockLevel). IsOf shop l.shop_id)
          (get_warehouse sorts.levels products shop page s.levels).items
pages-AllOwn ilike created_at sorts db shop customer product page q d keeps = (
  orders-AllOwn shop page ilike created_at sorts.orders q db.orders keeps.orders,
  customer_orders-AllOwn shop page sorts.orders customer db.orders keeps.orders,
  debts-AllOwn shop page sorts.debts db.orders d db.debts keeps.debts,
  batches-AllOwn shop page product db.warehouse.stock.batches,
  movements-AllOwn shop page sorts.movements product db.warehouse.stock.movements keeps.movements,
  levels-AllOwn shop page sorts.levels db.warehouse.catalog.products db.warehouse.stock.levels
      keeps.levels,
)
