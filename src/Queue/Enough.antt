-- ===== src/Queue/Enough.antt =====
-- When the job of an order returns, and what it takes from the stock.
use salepoint_backend.Prelude.{
  ℕ, ◌+◌, ◌≤◌, ◌==◌, ==_refl, ◌≡◌, subst, ◌↔◌, refl, sym, false, none, some, List, [], ◌∷◌, sum_by,
  All, inl, inr, true, ◌&&◌, find_first-holds, find_first-narrow, arith, ap, ◌∙◌, String,
}
use salepoint_backend.Prelude.Table.{find_first-save_self}
use salepoint_backend.Exec.{Result-cases, ok}
use salepoint_backend.Inventory.{deduct_from_storage, stored, held}
use salepoint_backend.Inventory.Sound.{IsSafe}
use salepoint_backend.Inventory.Deduct.{deduct_from_storage-IsSafe}
use salepoint_backend.Inventory.Whole.{AreWhole, rounds_over_whole, deduct_from_storage-AreWhole}
use salepoint_backend.Inventory.Taken.{deduct_from_storage_ok, deduct_from_storage-stored}
use salepoint_backend.Entities.{Order, OrderItem, order_key}
use salepoint_backend.Database.{Db, order_of}
use salepoint_backend.Products.Coherence.{IsCoherent}
use salepoint_backend.Orders.{
  mark_stock_deducted, create, cancel, is_final, CreateOrderDto, SavedOrder,
}
use salepoint_backend.Orders.Reserved.{wanted, ArePositive, AreWholeItems, IsTracked}
use salepoint_backend.Orders.Promised.{create-IsPromised}
use salepoint_backend.Orders.Released.{cancel_outcome, cancelled_order}
use salepoint_backend.Queue.Once.{unscoped}
use salepoint_backend.Queue.{deduct_items, deduct_order, handle_process_payment, deduct_unless}

deduct_items_ok :
    (i : ℕ) (items : List OrderItem) (db : Db)
    → IsSafe db.warehouse.stock
    → ArePositive items
    → AreWholeItems items
    → AreWhole db.warehouse.stock.batches
    → ((q : ℕ) → wanted q items ≤ stored q db.warehouse.stock)
    → (deduct_items i items db).0 ≡ ok tt
unfolding deduct_items
deduct_items_ok i [] db safe positive whole batches enough = refl
deduct_items_ok i (item ∷ rest) db safe positive whole batches enough =
    let p = item.product_id in
    let n = item.quantity in
    let s = db.warehouse.stock in
    let most : n ≤ stored p s = ground (arith, enough p, ==_refl p) in
    let first =
      deduct_from_storage_ok p n i s safe.sound most
        (rounds_over_whole p n s whole.0 batches most) in
    rw first (
      deduct_items_ok i rest _ (deduct_from_storage-IsSafe p n i s safe positive.0 first) positive.1
        whole.1 (deduct_from_storage-AreWhole p n i s safe.sound whole.0 batches first)
        (λ q. ground (arith, enough q, deduct_from_storage-stored p n i s safe.sound q first)))

-- Where the loop returns, every product has lost what the items want of it.
deduct_items-stored :
    (i : ℕ) (items : List OrderItem) (db : Db)
    → IsSafe db.warehouse.stock
    → ArePositive items
    → (deduct_items i items db).0 ≡ ok tt
    → (q : ℕ)
    → stored q (deduct_items i items db).1.warehouse.stock + wanted q items
      ≡ stored q db.warehouse.stock
unfolding deduct_items
deduct_items-stored i [] db safe positive done q = ground arith
deduct_items-stored i (item ∷ rest) db safe positive done q =
    let p = item.product_id in
    let n = item.quantity in
    let s = db.warehouse.stock in
    elim (Result-cases (deduct_from_storage p n i s).0) [
      | inl (u, first) ↦ rw first (
          ground (
            arith,
            deduct_from_storage-stored p n i s safe.sound q first,
            deduct_items-stored i rest _ (deduct_from_storage-IsSafe p n i s safe positive.0 first)
                positive.1 (rw first at done) q,
          ))
      | inr (e, failed) ↦ absurd (ground (arith, rw failed at done))
    ]

-- Of an order that is not flagged yet, whose items have positive quantities of whole units, in safe tables whose batches hold whole units, fewer than 2^53 each: the job returns exactly if the batches of every product hold all that the items of the order want of it, and then every product has lost just that.
pub handle_process_payment_outcome :
    (i : ℕ) (o : Order) (db : Db)
    → order_of i none db ≡ some o
    → o.stock_deducted ≡ false
    → ArePositive o.items
    → AreWholeItems o.items
    → AreWhole db.warehouse.stock.batches
    → IsSafe db.warehouse.stock
    → let (r, after) = handle_process_payment i db in
      ((r ≡ ok tt) ↔ ((q : ℕ) → wanted q o.items ≤ stored q db.warehouse.stock))
      × (r ≡ ok tt
          → (q : ℕ)
          → stored q after.warehouse.stock + wanted q o.items ≡ stored q db.warehouse.stock)
unfolding handle_process_payment deduct_unless deduct_order mark_stock_deducted
handle_process_payment_outcome i o db found unflagged positive whole batches safe =
    let taken = deduct_items-stored o.id o.items db safe positive in
    rw found (
      rw unflagged (elim (Result-cases (deduct_items o.id o.items db).0) [
        | inl (u, done) ↦
            rw done ((λ _ q. ground (arith, taken done q), λ _. refl), λ _ q. taken done q)
        | inr (e, failed) ↦ rw failed (
          (
            λ returned. absurd (ground (arith, returned)),
            λ enough. absurd (
                ground (
                  arith,
                  failed,
                  deduct_items_ok o.id o.items db safe positive whole batches enough,
                )),
          ),
          λ returned. absurd (ground (arith, returned)),
        )
      ]))

-- From safe stock tables and a cache that agrees with the database: where all batches hold whole units, fewer than 2^53 each: right after `create` has returned an order whose lines have positive quantities of whole units and name products whose stock is tracked, the job of the order returns, and every product has then lost just what the order wants of it.
pub create_then_job :
    (dto : CreateOrderDto) (cashier shop : ℕ) (number : String) (o : SavedOrder) (db : Db)
    → IsSafe db.warehouse.stock
    → IsCoherent shop db.warehouse.catalog
    → All (IsTracked shop db.warehouse.catalog.products) dto.items
    → AreWhole db.warehouse.stock.batches
    → (create dto cashier shop number db).0 ≡ ok o
    → let (r, after) = handle_process_payment o.row.id (create dto cashier shop number db).1 in
      (r ≡ ok tt)
      × ((q : ℕ)
          → stored q after.warehouse.stock + wanted q o.row.items ≡ stored q db.warehouse.stock)
create_then_job dto cashier shop number o db safe coherent lines_ok batches done =
    let placed = (create dto cashier shop number db).1 in
    let promise = create-IsPromised dto cashier shop number o db safe coherent lines_ok done in
    let (runs, takes) =
      handle_process_payment_outcome o.row.id o.row placed
        (unscoped o.row.id placed.orders ∙ promise.saved) promise.unflagged promise.positive
        promise.whole (subst AreWhole (sym promise.same_batches) batches) promise.safe in
    let returned = runs.1 (λ q. omega (arith, promise.reserved q, promise.safe.cover.covered q)) in
    (returned, λ q. takes returned q ∙ ap (sum_by (held q)) promise.same_batches)

-- From safe stock tables whose batches hold whole units, fewer than 2^53 each: once an order of the shop that is neither paid nor refunded, and whose items have positive quantities of whole units, is cancelled, which releases its quantities, its job, if it has not run yet and the batches hold enough, still returns and takes what the order wants from the stock.
pub cancel_then_job :
    (i shop : ℕ) (o : Order) (db : Db)
    → IsSafe db.warehouse.stock
    → order_of i none db ≡ some o
    → o.shop_id ≡ shop
    → is_final o.status ≡ false
    → o.stock_deducted ≡ false
    → ArePositive o.items
    → AreWholeItems o.items
    → AreWhole db.warehouse.stock.batches
    → ((q : ℕ) → wanted q o.items ≤ stored q db.warehouse.stock)
    → let (r, after) = handle_process_payment i (cancel i shop db).1 in
      (r ≡ ok tt)
      × ((q : ℕ) → stored q after.warehouse.stock + wanted q o.items ≡ stored q db.warehouse.stock)
cancel_then_job i shop o db safe found own unfinished unflagged positive whole batches enough =
    let scoped_row : order_of i (some shop) db ≡ some o =
      find_first-narrow (λ x. x.id == i) (λ x. x.shop_id == shop) db.orders o
        (sym (unscoped i db.orders) ∙ found) (rw own (==_refl shop)) in
    let (done, cancelled) = cancel_outcome i shop o db safe scoped_row unfinished in
    let row : order_of i none (cancel i shop db).1 ≡ some (cancelled_order o) = rw cancelled.rows (
      find_first-save_self order_key (λ x. x.id == i && true) (cancelled_order o) o db.orders found
        refl (find_first-holds (λ x. x.id == i && true) db.orders o found)) in
    let (runs, takes) =
      handle_process_payment_outcome i (cancelled_order o) (cancel i shop db).1 row unflagged
        positive whole (subst AreWhole (sym cancelled.same_batches) batches) cancelled.safe in
    let returned = runs.1 (λ q. rw (ap (sum_by (held q)) cancelled.same_batches) (enough q)) in
    (returned, λ q. takes returned q ∙ ap (sum_by (held q)) cancelled.same_batches)
