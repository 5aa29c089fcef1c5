-- ===== src/Tests/ListCases.antt =====
-- The theorems of the lists at sample data.
use salepoint_backend.Prelude.{
  ◌≤◌, ◌==◌, ◌≡◌, refl, Bool, true, not, ◌&&◌, none, some, [], ◌∷◌, String, count_by, All,
}
use salepoint_backend.Pagination.{PaginationQuery}
use salepoint_backend.Products.{Product, ProductQuery, find_all}
use salepoint_backend.Products.Tenants.{find_all_shows_foreign}
use salepoint_backend.Inventory.{
  StockLevel, StorageItem, StockMovement, get_storage_batches, find_movements, get_warehouse,
}
use salepoint_backend.Entities.{Order, OrderStatus, Debt}
use salepoint_backend.Database.{Db}
use salepoint_backend.Orders.{OrderQuery, find_by_customer}
use salepoint_backend.Orders as Orders
use salepoint_backend.Debts.{DebtQuery}
use salepoint_backend.Debts as Debts
use salepoint_backend.Tenancy.{IsOf, Sorts, AreSorts, pages-AllOwn}
use salepoint_backend.Tests.Samples.{tea, db_with}

abbrev db : Db
db = db_with OrderStatus.confirmed

abbrev first_page : PaginationQuery
first_page = record { page = 1; limit = 20; search = none }

abbrev tea_of_others : Product
tea_of_others = record tea { id = 8; shop_id = 2 }

abbrev like_all : String → String → Bool
like_all column s = true

abbrev searched : ProductQuery
searched = record {
  page = record first_page { search = some "T" };
  category_id = some 3;
  active = none;
}

-- Shop 1 is shown the tea of shop 2.
find_all_shows_foreign_example :
    count_by
      (λ p. not (p.shop_id == 1) && not p.deleted && like_all p.sku "T")
      (tea ∷ tea_of_others ∷ [])
    ≤ (find_all like_all
        (λ xs. xs)
        "https://cdn"
        (some 1)
        searched
        (tea ∷ tea_of_others ∷ [])).info.total
find_all_shows_foreign_example =
    find_all_shows_foreign like_all (λ xs. xs) "https://cdn" 1 searched (tea ∷ tea_of_others ∷ [])
      "T" refl

abbrev as_stored : Sorts
as_stored = record { orders = λ xs. xs; debts = λ xs. xs; movements = λ xs. xs; levels = λ xs. xs }

as_stored-AreSorts : AreSorts as_stored
as_stored-AreSorts = record {
  orders = λ P xs h. h;
  debts = λ P xs h. h;
  movements = λ P xs h. h;
  levels = λ P xs h. h;
}

abbrev any_order : OrderQuery
any_order = record { page = first_page; status = none; cashier_id = none; from = none; to = none }

abbrev any_debt : DebtQuery
any_debt = record {
  page = first_page;
  customer_id = none;
  status = none;
  cashier_id = none;
  shift_id = none;
}

pages-AllOwn_example :
    All
      (λ (o : Order). o.shop_id ≡ 1)
      (Orders.find_all like_all (λ o. 0) (λ xs. xs) (some 1) any_order db.orders).items
    × All
        (λ (o : Order). o.shop_id ≡ 1)
        (find_by_customer (λ xs. xs) 5 1 first_page db.orders).items
    × All
        (λ (x : Debt). x.shop_id ≡ 1)
        (Debts.find_all (λ xs. xs) db.orders (some 1) any_debt db.debts).items
    × All
        (λ (b : StorageItem). IsOf 1 b.shop_id)
        (get_storage_batches 7 1 first_page db.warehouse.stock.batches).items
    × All
        (λ (m : StockMovement). IsOf 1 m.shop_id)
        (find_movements (λ xs. xs) 7 1 first_page db.warehouse.stock.movements).items
    × All
        (λ (l : StockLevel). IsOf 1 l.shop_id)
        (get_warehouse
          (λ xs. xs)
          db.warehouse.catalog.products
          1
          first_page
          db.warehouse.stock.levels).items
pages-AllOwn_example =
    pages-AllOwn like_all (λ o. 0) as_stored db 1 5 7 first_page any_order any_debt
      as_stored-AreSorts
