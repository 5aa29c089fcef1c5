-- ===== src/Tests/JobCases.antt =====
-- The theorems of the order queue at sample data.
use salepoint_backend.Prelude.{
  ℕ, ◌+◌, ◌-◌, ◌==◌, none, some, inl, inr, Bool-cases, ◌≤◌, ◌≡◌, ◌↔◌, refl, [], ◌∷◌, arith,
}
use salepoint_backend.Exec.{ok, err, insufficient_storage}
use salepoint_backend.Inventory.{
  stored, deduct_from_storage, deduct_oldest, deduct_batches, return_to_storage, upsert_stock_level,
}
use salepoint_backend.Inventory.Whole.{IsWhole, AreWhole}
use salepoint_backend.Inventory.{drained, Stock, StorageItem, percent}
use salepoint_backend.Double as Double
use salepoint_backend.Entities.{OrderStatus, Order}
use salepoint_backend.Database.{Db}
use salepoint_backend.Orders.{create, cancel, mark_stock_deducted}
use salepoint_backend.Orders.Reserved.{wanted, IsTracked}
use salepoint_backend.Queue.{handle_process_payment, deduct_unless, deduct_order, deduct_items}
use salepoint_backend.Queue.Enough.{
  handle_process_payment_outcome, create_then_job, cancel_then_job,
}
use salepoint_backend.Orders.Released.{
  cancel_outcome, cancel_twice, cancelled_order, IsCancelled, reserved,
}
use salepoint_backend.Sales.{
  IsServed, Reach, here, next, order, run_job, cancel_order, Reach-IsServed,
}
use salepoint_backend.Tests.Samples.{item, order_in, db_with, line, tea}
use salepoint_backend.Tests.StockCases.{some_stock-IsSafe}
use salepoint_backend.Tests.CatalogCases.{catalog-IsCoherent}
use salepoint_backend.Tests.SalesCases.{on_credit, created, created_ok}

abbrev db : Db
db = db_with OrderStatus.confirmed

two_units : IsWhole 2000
two_units = (2, refl, omega arith)

some_whole : AreWhole db.warehouse.stock.batches
unfolding return_to_storage upsert_stock_level
some_whole = ((5, refl, omega arith), tt)

handle_process_payment_outcome_example :
    let (r, after) = handle_process_payment 9 db in
    ((r ≡ ok tt) ↔ ((q : ℕ) → wanted q (item ∷ []) ≤ stored q db.warehouse.stock))
    × (r ≡ ok tt
        → (q : ℕ)
        → stored q after.warehouse.stock + wanted q (item ∷ []) ≡ stored q db.warehouse.stock)
handle_process_payment_outcome_example =
    handle_process_payment_outcome 9 (order_in OrderStatus.confirmed) db refl refl (omega arith, tt)
      (two_units, tt) some_whole some_stock-IsSafe

two_teas-IsTracked : IsTracked 1 (tea ∷ []) (line 2000)
two_teas-IsTracked = record { positive = omega arith; whole = two_units; tracked = λ p q. cc }

create_then_job_example :
    let (r, after) = handle_process_payment created.row.id (create on_credit 2 1 "ORD-2" db).1 in
    (r ≡ ok tt)
    × ((q : ℕ)
        → stored q after.warehouse.stock + wanted q created.row.items ≡ stored q db.warehouse.stock)
create_then_job_example =
    create_then_job on_credit 2 1 "ORD-2" created db some_stock-IsSafe catalog-IsCoherent
      (two_teas-IsTracked, tt) some_whole created_ok

-- Two pieces of a product without batches, whose stock is not tracked.
abbrev service_order : Order
service_order = record (order_in OrderStatus.confirmed) {
  items = record item { product_id = 8 } ∷ [];
}

abbrev with_service : Db
with_service = record db { orders = service_order ∷ [] }

service_job_throws : (handle_process_payment 9 with_service).0 ≡ err insufficient_storage
unfolding handle_process_payment deduct_unless deduct_order deduct_items mark_stock_deducted
    deduct_from_storage deduct_oldest deduct_batches return_to_storage upsert_stock_level
service_job_throws = refl

db-IsServed : IsServed db
db-IsServed = record { safe = some_stock-IsSafe; positive = ((omega arith, tt), tt) }

abbrev ordered : Db
ordered = (create on_credit 2 1 "ORD-2" db).1

-- An order, its job, and the cancellation of another order.
a_day : Reach db (cancel 9 1 (handle_process_payment 20 ordered).1).1
a_day =
    next (next (next here (order db on_credit 2 1 "ORD-2" (omega arith, tt))) (run_job ordered 20))
      (cancel_order (handle_process_payment 20 ordered).1 9 1)

Reach-IsServed_example : IsServed (cancel 9 1 (handle_process_payment 20 ordered).1).1
Reach-IsServed_example = Reach-IsServed db-IsServed a_day

-- 0.7 and 0.1 of a product: the job of an order of 0.8 fails.
abbrev weighed : ℕ → ℕ → StorageItem
weighed i q = record {
  id = i;
  shop_id = some 1;
  product_id = 7;
  quantity = q;
  initial_quantity = q;
  cost_price = 300;
  margin = 0;
  margin_type = percent;
  selling_price = 300;
  notes = none;
}

abbrev two_batches : Stock
two_batches = record db.warehouse.stock { batches = weighed 0 700 ∷ weighed 1 100 ∷ [] }

all_wanted : (deduct_from_storage 7 800 9 two_batches).0 ≡ err insufficient_storage
unfolding deduct_from_storage deduct_oldest deduct_batches drained Double.sub Double.of_ratio
    Double.nearest Double.ulp
all_wanted = refl

held_enough : (q : ℕ) → wanted q (item ∷ []) ≤ stored q db.warehouse.stock
unfolding return_to_storage upsert_stock_level
held_enough q = elim (Bool-cases (7 == q)) [
  | inl own ↦ rw own (omega arith)
  | inr other ↦ rw other (omega arith)
]

cancel_outcome_example :
    ((cancel 9 1 db).0 ≡ ok (cancelled_order (order_in OrderStatus.confirmed)))
    × IsCancelled 9 1 (order_in OrderStatus.confirmed) db (cancel 9 1 db).1
cancel_outcome_example =
    cancel_outcome 9 1 (order_in OrderStatus.confirmed) db some_stock-IsSafe refl refl

cancel_twice_example :
    let (r, after) = cancel 9 1 (cancel 9 1 db).1 in
    (r ≡ ok (cancelled_order (order_in OrderStatus.confirmed)))
    × ((q : ℕ) → reserved q after ≡ reserved q db - (wanted q (item ∷ []) + wanted q (item ∷ [])))
cancel_twice_example =
    cancel_twice 9 1 (order_in OrderStatus.confirmed) db some_stock-IsSafe refl refl

cancel_then_job_example :
    let (r, after) = handle_process_payment 9 (cancel 9 1 db).1 in
    (r ≡ ok tt)
    × ((q : ℕ)
        → stored q after.warehouse.stock + wanted q (item ∷ []) ≡ stored q db.warehouse.stock)
cancel_then_job_example =
    cancel_then_job 9 1 (order_in OrderStatus.confirmed) db some_stock-IsSafe refl refl refl refl
      (omega arith, tt) (two_units, tt) some_whole held_enough
