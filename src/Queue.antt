-- ===== src/Queue.antt =====
-- queue/processors/order.processor.ts: the Bull job that deducts the stock of an order.
pub mod Enough
pub mod Once
use salepoint_backend.Prelude.{ℕ, Bool, true, false, Option, none, some, List, [], ◌∷◌}
use salepoint_backend.Exec.{Exec, ok, pure, gets, or_raise, modify, ◌>>=◌, ◌>>◌, order_not_found}
use salepoint_backend.Inventory.{deduct_from_storage}
use salepoint_backend.Entities.{Order, OrderItem}
use salepoint_backend.Database.{Db, in_stock_tables, transaction, order_of}
use salepoint_backend.Orders.{mark_stock_deducted}

-- The loop over the items, in one transaction.
unfoldable pub deduct_items : ℕ → List OrderItem → Exec Db (Unit {0})
deduct_items order_id [] = pure tt
deduct_items order_id (item ∷ rest) = do
  in_stock_tables (deduct_from_storage item.product_id item.quantity order_id)
  deduct_items order_id rest

unfoldable pub deduct_order : Order → Exec Db (Unit {0})
deduct_order order = transaction (deduct_items order.id order.items)

-- `if (order.stockDeducted) return;`, and what follows.
unfoldable pub deduct_unless : Bool → Order → ℕ → Exec Db (Unit {0})
unfolding mark_stock_deducted
deduct_unless true order order_id = pure tt
deduct_unless false order order_id = deduct_order order >> modify (mark_stock_deducted order_id)

-- The job: a throw gives it back to the queue.
unfoldable pub handle_process_payment : ℕ → Exec Db (Unit {0})
handle_process_payment order_id = do
  order ← or_raise (← gets (order_of order_id none)) order_not_found
  deduct_unless order.stock_deducted order order_id
