-- ===== src/Database.antt =====
-- The state that the sales services share: the PostgreSQL tables, the product cache in Redis and
-- the Bull queue of orders; and transactions over it.
pub mod Keeps
use salepoint_backend.Prelude.{
  ℕ, ◌+◌, Option, none, some, List, [], ◌∷◌, ◌++◌, Bool, true, ◌==◌, ◌&&◌, find_first,
}
use salepoint_backend.Prelude.Table.{save}
use salepoint_backend.Exec.{Exec, Result, ok, err, zoom}
use salepoint_backend.Products.{Catalog}
use salepoint_backend.Inventory.{Stock, Warehouse}
use salepoint_backend.Entities.{
  Order, Debt, DebtRepayment, Shift, Payment, Customer, order_key, debt_key, shift_key, payment_key,
}

pub record Db : Type 0 where
  pub warehouse : Warehouse
  pub orders : List Order
  pub debts : List Debt
  pub repayments : List DebtRepayment
  pub shifts : List Shift
  pub payments : List Payment
  pub customers : List Customer
  pub queue : List ℕ
  pub next_id : ℕ

abbrev pub put_stock : Stock → Db → Db
put_stock s db = record db { warehouse = record db.warehouse { stock = s } }

abbrev pub put_catalog : Catalog → Db → Db
put_catalog c db = record db { warehouse = record db.warehouse { catalog = c } }

abbrev pub in_stock_tables : {A : Type 0} → Exec Stock A → Exec Db A
in_stock_tables = zoom (λ db. db.warehouse.stock) put_stock

abbrev pub in_catalog : {A : Type 0} → Exec Catalog A → Exec Db A
in_catalog = zoom (λ db. db.warehouse.catalog) put_catalog

-- The tables of `old`, with what is not in PostgreSQL as it is now: the cache and the queue.
abbrev pub rolled_back : Db → Db → Db
rolled_back old db = record old {
  warehouse = record old.warehouse {
    catalog = record old.warehouse.catalog { cache = db.warehouse.catalog.cache };
  };
  queue = db.queue;
}

abbrev pub settled : {A : Type 0} → Db → Result A × Db → Result A × Db
settled old (ok a, db) = (ok a, db)
settled old (err e, db) = (err e, rolled_back old db)

-- `dataSource.transaction(…)`
abbrev pub transaction : {A : Type 0} → Exec Db A → Exec Db A
transaction m db = settled db (m db)

-- A shop as a condition of a query: an absent one is no condition.
abbrev pub scoped : Option ℕ → ℕ → Bool
scoped none s = true
scoped (some t) s = s == t

abbrev pub order_of : ℕ → Option ℕ → Db → Option Order
order_of i shop db = find_first (λ o. o.id == i && scoped shop o.shop_id) db.orders

abbrev pub debt_of : ℕ → Option ℕ → Db → Option Debt
debt_of i shop db = find_first (λ d. d.id == i && scoped shop d.shop_id) db.debts

abbrev pub shift_of : ℕ → Option ℕ → Db → Option Shift
shift_of i shop db = find_first (λ s. s.id == i && scoped shop s.shop_id) db.shifts

abbrev pub customer_of : ℕ → ℕ → Db → Option Customer
customer_of i shop db = find_first (λ c. c.id == i && c.shop_id == shop) db.customers

abbrev pub save_order : Order → Db → Db
save_order o db = record db { orders = save order_key o db.orders }

abbrev pub save_debt : Debt → Db → Db
save_debt d db = record db { debts = save debt_key d db.debts }

abbrev pub save_shift : Shift → Db → Db
save_shift s db = record db { shifts = save shift_key s db.shifts }

abbrev pub save_payment : Payment → Db → Db
save_payment p db = record db { payments = save payment_key p db.payments }

-- `gen_random_uuid()`, of a row that is added.
abbrev pub fresh_id : Exec Db ℕ
fresh_id db = (ok db.next_id, record db { next_id = db.next_id + 1 })
