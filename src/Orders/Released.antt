-- ===== src/Orders/Released.antt =====
-- What `cancel` releases.
use salepoint_backend.Prelude.{
  ℕ, Bool, ◌+◌, ◌-◌, ◌==◌, ◌&&◌, ◌≡◌, refl, ◌∙◌, false, some, List, [], ◌∷◌, arith,
  find_first-holds,
}
use salepoint_backend.Prelude.Table.{save, find_first-save_self}
use salepoint_backend.Exec.{ok}
use salepoint_backend.Inventory.Sound.{IsSafe, reserved_of, level_in}
use salepoint_backend.Inventory.Reserve.{
  release_stock-IsSafe, release_stock-reserved, release_stock-batches,
}
use salepoint_backend.Entities.{Order, OrderItem, OrderStatus, order_key}
use salepoint_backend.Database.{Db, order_of, scoped}
use salepoint_backend.Orders.Service.{release_items, cancel, cancel_found, is_final}
use salepoint_backend.Database.Keeps.{HasSafeStock}
use salepoint_backend.Orders.Loops.{release_items-Keeps}
use salepoint_backend.Orders.Safety.{stock_steps}
use salepoint_backend.Orders.Reserved.{wanted}

-- What the levels show as reserved of a product.
abbrev pub reserved : ℕ → Db → ℕ
reserved q db = reserved_of (level_in q db.warehouse.stock.levels)

abbrev pub cancelled_order : Order → Order
cancelled_order o = record o { status = OrderStatus.cancelled }

-- The loop that releases the items of an order, run from one database to another.
record IsReleased (items : List OrderItem) (before after : Db) : Type 0 where
  same_orders : after.orders ≡ before.orders
  same_batches : after.warehouse.stock.batches ≡ before.warehouse.stock.batches
  released : (q : ℕ) → reserved q after ≡ reserved q before - wanted q items

release_items-IsReleased :
    (items : List OrderItem) (db : Db)
    → IsSafe db.warehouse.stock
    → ((release_items items db).0 ≡ ok tt) × IsReleased items db (release_items items db).1
unfolding release_items
release_items-IsReleased [] db safe =
    (refl, record { same_orders = refl; same_batches = refl; released = λ q. omega arith })
release_items-IsReleased (item ∷ rest) db safe =
    let p = item.product_id in
    let n = item.quantity in
    let s = db.warehouse.stock in
    let (first, less) = release_stock-reserved p n s safe.sound in
    rw first (
      let (done, after) = release_items-IsReleased rest _ (release_stock-IsSafe p n s safe) in
      (
        done,
        record {
          same_orders = after.same_orders;
          same_batches = after.same_batches ∙ release_stock-batches p n s;
          released = λ q. omega (arith, after.released q, less q);
        },
      ))

-- An order that `cancel` has cancelled: it is stored as such, no batch changes, and of every product what its items want is no longer reserved.
pub record IsCancelled (i shop : ℕ) (o : Order) (before after : Db) : Type 0 where
  pub rows : after.orders ≡ save order_key (cancelled_order o) before.orders
  pub stored : order_of i (some shop) after ≡ some (cancelled_order o)
  pub same_batches : after.warehouse.stock.batches ≡ before.warehouse.stock.batches
  pub released : (q : ℕ) → reserved q after ≡ reserved q before - wanted q o.items
  pub safe : IsSafe after.warehouse.stock

-- From safe stock tables: `cancel` of an order of the shop that is neither paid nor refunded returns it as cancelled, and releases all that its items want, also if the order is cancelled already.
pub cancel_outcome :
    (i shop : ℕ) (o : Order) (db : Db)
    → IsSafe db.warehouse.stock
    → order_of i (some shop) db ≡ some o
    → is_final o.status ≡ false
    → ((cancel i shop db).0 ≡ ok (cancelled_order o)) × IsCancelled i shop o db (cancel i shop db).1
unfolding cancel cancel_found
cancel_outcome i shop o db safe found unfinished =
    let (done, after) = release_items-IsReleased o.items db safe in
    let query : Order → Bool = λ x. x.id == i && scoped (some shop) x.shop_id in
    rw found (
      rw unfinished (
        rw done (
          refl,
          record {
            rows = rw after.same_orders refl;
            stored =
                find_first-save_self order_key query (cancelled_order o) o _
                  (rw after.same_orders found) refl (find_first-holds query db.orders o found);
            same_batches = after.same_batches;
            released = after.released;
            safe = release_items-Keeps HasSafeStock stock_steps o.items db safe;
          },
        )))

-- From safe stock tables: an order that is neither paid nor refunded can be cancelled twice, and the second call releases its quantities once more, though it holds none: of every product, twice what the order wants is no longer reserved, as far as that much was, whichever order had reserved it.
pub cancel_twice :
    (i shop : ℕ) (o : Order) (db : Db)
    → IsSafe db.warehouse.stock
    → order_of i (some shop) db ≡ some o
    → is_final o.status ≡ false
    → let (r, after) = cancel i shop (cancel i shop db).1 in
      (r ≡ ok (cancelled_order o))
      × ((q : ℕ) → reserved q after ≡ reserved q db - (wanted q o.items + wanted q o.items))
cancel_twice i shop o db safe found unfinished =
    let (done, once) = cancel_outcome i shop o db safe found unfinished in
    let (again, twice) =
      cancel_outcome i shop (cancelled_order o) (cancel i shop db).1 once.safe once.stored refl in
    (again, λ q. omega (arith, once.released q, twice.released q))
