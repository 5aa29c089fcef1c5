-- ===== src/Queue/Once.antt =====
-- What running the job of an order does, once and again.
use salepoint_backend.Prelude.{
  ℕ, ◌<◌, ◌==◌, ==→eq, ◌≡◌, refl, sym, ◌∙◌, ap, Bool, true, false, ◌&&◌, none, some, List, [], ◌∷◌,
  arith, inl, inr, Option-cases, find_first, find_first-holds, All,
}
use salepoint_backend.Prelude.Table.{find_by_id, find_first-update_by_id}
use salepoint_backend.Exec.{Error, Result-cases, ok, err}
use salepoint_backend.Inventory.{deduct_from_storage}
use salepoint_backend.Inventory.Sound.{IsSafe}
use salepoint_backend.Inventory.Deduct.{deduct_from_storage-IsSafe}
use salepoint_backend.Entities.{Order, OrderItem, order_key}
use salepoint_backend.Database.{Db, order_of, scoped}
use salepoint_backend.Database.Keeps.{Keeps, KeepsStock, IsUndone, settled-IsUndone}
use salepoint_backend.Orders.{mark_stock_deducted}
use salepoint_backend.Orders.Positive.{AllPositive, mark_stock_deducted-AllPositive}
use salepoint_backend.Queue.{deduct_items, deduct_order, handle_process_payment, deduct_unless}

-- Where the loop over the items returns, it leaves safe stock tables.
deduct_items-IsSafe :
    (i : ℕ) (items : List OrderItem) (db : Db)
    → IsSafe db.warehouse.stock
    → All (λ (item : OrderItem). 0 < item.quantity) items
    → (deduct_items i items db).0 ≡ ok tt
    → IsSafe (deduct_items i items db).1.warehouse.stock
unfolding deduct_items
deduct_items-IsSafe i [] db safe positive done = safe
deduct_items-IsSafe i (item ∷ rest) db safe positive done =
    elim (Result-cases (deduct_from_storage item.product_id item.quantity i db.warehouse.stock).0) [
      | inl (u, first) ↦ rw first (
          deduct_items-IsSafe i rest _
            (deduct_from_storage-IsSafe item.product_id item.quantity i db.warehouse.stock safe
              positive.0 first)
            positive.1 (rw first at done))
      | inr (e, failed) ↦ absurd (ground (arith, rw failed at done))
    ]

deduct_order-IsSafe :
    (order : Order)
    → All (λ (item : OrderItem). 0 < item.quantity) order.items
    → KeepsStock (deduct_order order)
unfolding deduct_order
deduct_order-IsSafe order positive db safe =
    elim (Result-cases (deduct_items order.id order.items db).0) [
      | inl (u, done) ↦ rw done (deduct_items-IsSafe order.id order.items db safe positive done)
      | inr (e, failed) ↦ rw failed safe
    ]

deduct_unless-IsSafe :
    (b : Bool) (order : Order) (i : ℕ)
    → All (λ (item : OrderItem). 0 < item.quantity) order.items
    → KeepsStock (deduct_unless b order i)
unfolding deduct_unless mark_stock_deducted
deduct_unless-IsSafe true order i positive db safe = safe
deduct_unless-IsSafe false order i positive db safe =
    elim (Result-cases (deduct_order order db).0) [
      | inl (u, done) ↦ rw done (deduct_order-IsSafe order positive db safe)
      | inr (e, failed) ↦ rw failed (deduct_order-IsSafe order positive db safe)
    ]

-- The job of an order with positive quantities keeps the stock tables safe, whether it returns or throws.
pub handle_process_payment-IsSafe :
    (i : ℕ) (db : Db)
    → ((o : Order)
        → order_of i none db ≡ some o
        → All (λ (item : OrderItem). 0 < item.quantity) o.items)
    → IsSafe db.warehouse.stock
    → IsSafe (handle_process_payment i db).1.warehouse.stock
unfolding handle_process_payment
handle_process_payment-IsSafe i db positive safe = elim (Option-cases (order_of i none db)) [
  | inl missing ↦ rw missing safe
  | inr (o, found) ↦ rw found (deduct_unless-IsSafe o.stock_deducted o i (positive o found) db safe)
]

deduct_unless-IsUndone :
    (b : Bool) (order : Order) (i : ℕ) (e : Error) (db : Db)
    → (deduct_unless b order i db).0 ≡ err e
    → IsUndone db (deduct_unless b order i db).1
unfolding deduct_unless deduct_order
deduct_unless-IsUndone true order i e db failed = absurd (ground (arith, failed))
deduct_unless-IsUndone false order i e db failed =
    elim (Result-cases (deduct_items order.id order.items db).0) [
      | inl (u, done) ↦ absurd (ground (arith, rw done at failed))
      | inr (e', thrown) ↦ rw thrown (
          settled-IsUndone {A = Unit {0}} e' db (err e', (deduct_items order.id order.items db).1)
            refl)
    ]

-- Where the job throws, the tables are as they were, so that it can run again.
handle_process_payment-IsUndone :
    (i : ℕ) (e : Error) (db : Db)
    → (handle_process_payment i db).0 ≡ err e
    → IsUndone db (handle_process_payment i db).1
unfolding handle_process_payment
handle_process_payment-IsUndone i e db failed = elim (Option-cases (order_of i none db)) [
  | inl missing ↦ rw missing (settled-IsUndone {A = Unit {0}} e db (err e, db) refl)
  | inr (o, found) ↦
      rw found (deduct_unless-IsUndone o.stock_deducted o i e db (rw found at failed))
]

deduct_items_orders :
    (i : ℕ) (items : List OrderItem) (db : Db) → (deduct_items i items db).1.orders ≡ db.orders
unfolding deduct_items
deduct_items_orders i [] db = refl
deduct_items_orders i (item ∷ rest) db =
    elim (Result-cases (deduct_from_storage item.product_id item.quantity i db.warehouse.stock).0) [
      | inl (u, first) ↦ rw first (deduct_items_orders i rest _)
      | inr (e, failed) ↦ rw failed refl
    ]

deduct_unless-AllPositive :
    (b : Bool) (order : Order) (i : ℕ) → Keeps AllPositive (deduct_unless b order i)
unfolding deduct_unless deduct_order
deduct_unless-AllPositive true order i db h = h
deduct_unless-AllPositive false order i db h =
    elim (Result-cases (deduct_items order.id order.items db).0) [
      | inr (e, failed) ↦ rw failed h
      | inl (u, done) ↦ rw done (
          mark_stock_deducted-AllPositive i (deduct_items order.id order.items db).1
            (rw (deduct_items_orders order.id order.items db) h))
    ]

pub handle_process_payment-AllPositive : (i : ℕ) → Keeps AllPositive (handle_process_payment i)
unfolding handle_process_payment
handle_process_payment-AllPositive i db h = elim (Option-cases (order_of i none db)) [
  | inl missing ↦ rw missing h
  | inr (o, found) ↦ rw found (deduct_unless-AllPositive o.stock_deducted o i db h)
]

pub unscoped :
    (i : ℕ) (rows : List Order)
    → find_first (λ o. o.id == i && scoped none o.shop_id) rows ≡ find_by_id order_key i rows
unscoped i [] = refl
unscoped i (o ∷ rows) = ground (arith, unscoped i rows)

-- The order is flagged once the job has returned.
flagged :
    (b : Bool) (o : Order) (i : ℕ) (db : Db)
    → o.stock_deducted ≡ b
    → order_of i none db ≡ some o
    → (deduct_unless b o i db).0 ≡ ok tt
    → (o' : Order) × (order_of i none (deduct_unless b o i db).1 ≡ some o')
      × (o'.stock_deducted ≡ true)
unfolding deduct_unless deduct_order mark_stock_deducted
flagged true o i db flag found done = (o, found, flag)
flagged false o i db flag found done = elim (Result-cases (deduct_items o.id o.items db).0) [
  | inl (u, right) ↦ rw right (
      rw (deduct_items_orders o.id o.items db) (
        record o { stock_deducted = true },
        find_first-update_by_id order_key i (λ x. record x { stock_deducted = true })
            (λ x. x.id == i && scoped none x.shop_id) o db.orders
            (λ x q. ground (arith, ==→eq x.id i)) (sym (unscoped i db.orders) ∙ found)
            (find_first-holds (λ x. x.id == i && scoped none x.shop_id) db.orders o found),
        refl,
      ))
  | inr (e, failed) ↦ absurd (ground (arith, rw failed at done))
]

skipped :
    (i : ℕ) (o : Order) (db : Db)
    → order_of i none db ≡ some o
    → o.stock_deducted ≡ true
    → handle_process_payment i db ≡ (ok tt, db)
unfolding handle_process_payment deduct_unless
skipped i o db found flag = rw found (ap (λ b. deduct_unless b o i db) flag)

-- Once the job has returned, running it again returns too and changes nothing.
pub handle_process_payment_twice :
    (i : ℕ) (db : Db)
    → (handle_process_payment i db).0 ≡ ok tt
    → let after = (handle_process_payment i db).1 in handle_process_payment i after ≡ (ok tt, after)
unfolding handle_process_payment
handle_process_payment_twice i db done = elim (Option-cases (order_of i none db)) [
  | inl missing ↦ absurd (ground (arith, rw missing at done))
  | inr (o, found) ↦
      let (o', read, flag) = flagged o.stock_deducted o i db refl found (rw found at done) in
      rw found (skipped i o' _ read flag)
]
