-- ===== src/Orders/Reserved.antt =====
-- What the loop of `create` over the lines of a request reserves.
use salepoint_backend.Prelude.{
  ℕ, ◌≤◌, ◌<◌, ◌==◌, ◌&&◌, not, ◌≡◌, sym, ap, subst, ◌∙◌, true, some, List, [], ◌∷◌, if◌then◌else◌,
  find_first, sum_by, sum_by-append, All, All-append, inl, inr, Bool-cases, arith,
}
use salepoint_backend.Exec.{ok, Result-cases}
use salepoint_backend.Products.{
  Product, find_raw_by_id, assert_quantity_for_unit, is_product, is_piece, is_whole,
}
use salepoint_backend.Products.Coherence.{
  IsCoherent, find_raw_by_id-IsCoherent, find_raw_by_id-products, found-product, found-id,
}
use salepoint_backend.Inventory.{StorageItem, reserve_stock}
use salepoint_backend.Inventory.Whole.{IsWhole}
use salepoint_backend.Inventory.Sound.{IsSafe, reserved_of, level_in}
use salepoint_backend.Inventory.Reserve.{
  reserve_stock-IsSafe, reserve_stock-reserved, reserve_stock-batches,
}
use salepoint_backend.Entities.{OrderItem}
use salepoint_backend.Database.{Db, put_stock, put_catalog}
use salepoint_backend.Orders.Totals.{OrderItemDto, Basket, add_line}
use salepoint_backend.Orders.Service.{add_item, add_items}
use salepoint_backend.Orders.Lines.{basket_eq}

-- What the items of an order want of a product.
abbrev pub wanted_of : ℕ → OrderItem → ℕ
wanted_of q item = if item.product_id == q then item.quantity else 0

abbrev pub wanted : ℕ → List OrderItem → ℕ
wanted q items = sum_by (wanted_of q) items

abbrev pub ArePositive : List OrderItem → Type 0
ArePositive = All (λ (item : OrderItem). 0 < item.quantity)

-- Whole units of every item, as of products that are sold by the piece.
abbrev pub AreWholeItems : List OrderItem → Type 0
AreWholeItems = All (λ (item : OrderItem). IsWhole item.quantity)

-- A line of a positive quantity of whole units, for a product whose stock is tracked.
pub record IsTracked (shop : ℕ) (products : List Product) (line : OrderItemDto) : Type 0 where
  pub positive : 0 < line.quantity
  pub whole : IsWhole line.quantity
  pub tracked :
      (p : Product)
      → find_first (is_product line.product_id (some shop)) products ≡ some p
      → p.track_stock ≡ true

-- What the loop keeps: for every item in the basket the quantity is reserved.
pub record IsReserved (shop : ℕ) (products : List Product) (batches : List StorageItem) (b : Basket)
    (db : Db) : Type 0 where
  pub safe : IsSafe db.warehouse.stock
  pub coherent : IsCoherent shop db.warehouse.catalog
  pub same_products : db.warehouse.catalog.products ≡ products
  pub same_batches : db.warehouse.stock.batches ≡ batches
  pub positive : ArePositive b.items
  pub whole : AreWholeItems b.items
  pub reserved : (q : ℕ) → wanted q b.items ≤ reserved_of (level_in q db.warehouse.stock.levels)

-- The tables after a round for a line: the product is cached and its quantity reserved.
abbrev after_round : ℕ → OrderItemDto → Db → Db
after_round shop line db =
    put_stock (reserve_stock line.product_id line.quantity db.warehouse.stock).1
      (put_catalog (find_raw_by_id line.product_id (some shop) db.warehouse.catalog).1 db)

module _ (shop : ℕ) (products : List Product) (batches : List StorageItem) where
  add_line-IsReserved :
      (line : OrderItemDto) (b : Basket) (row : Product) (db : Db)
      → IsTracked shop products line
      → IsReserved shop products batches b db
      → row.id ≡ line.product_id
      → (reserve_stock line.product_id line.quantity db.warehouse.stock).0 ≡ ok tt
      → IsReserved shop products batches (add_line row line.quantity b) (after_round shop line db)
  unfolding add_line
  add_line-IsReserved line b row db line_ok h key right =
      let c = db.warehouse.catalog in
      let s = db.warehouse.stock in
      let p = line.product_id in
      let n = line.quantity in
      record {
        safe = reserve_stock-IsSafe p n s h.safe;
        coherent = find_raw_by_id-IsCoherent p shop c h.coherent;
        same_products = find_raw_by_id-products p shop c ∙ h.same_products;
        same_batches = reserve_stock-batches p n s ∙ h.same_batches;
        positive =
            All-append (λ (i : OrderItem). 0 < i.quantity) b.items (_ ∷ []) h.positive
              (line_ok.positive, tt);
        whole =
            All-append (λ (i : OrderItem). IsWhole i.quantity) b.items (_ ∷ []) h.whole
              (line_ok.whole, tt);
        reserved = λ q. rw (sum_by-append (wanted_of q) b.items (_ ∷ [])) (
            rw (reserve_stock-reserved p n s h.safe.sound right q)
              (rw key (omega (arith, h.reserved q))));
      }

  add_item-IsReserved :
      (line : OrderItemDto) (b b' : Basket) (db : Db)
      → IsTracked shop products line
      → IsReserved shop products batches b db
      → (add_item shop line b db).0 ≡ ok b'
      → IsReserved shop products batches b' (add_item shop line b db).1
  unfolding add_item assert_quantity_for_unit add_line
  add_item-IsReserved line b b' db line_ok h done =
      let c = db.warehouse.catalog in
      let s = db.warehouse.stock in
      let p = line.product_id in
      let n = line.quantity in
      elim (Result-cases (find_raw_by_id p (some shop) c).0) [
        | inr (e, failed) ↦ absurd (ground (arith, rw failed at done))
        | inl (row, found) ↦
            let done1 = rw found at done in
            let key : row.id ≡ p = found-id p shop c h.coherent row found in
            let tracked : row.track_stock ≡ true = line_ok.tracked row (
              ap (find_first (is_product p (some shop))) (sym h.same_products)
              ∙ found-product p shop c h.coherent row found) in
            rw found (elim (Bool-cases (not row.is_active)) [
              | inl idle ↦ absurd (ground (arith, rw idle at done1))
              | inr active ↦
                  let done2 = rw active at done1 in
                  rw active (elim (Bool-cases (is_piece row.unit_type && not (is_whole n))) [
                    | inl split ↦ absurd (ground (arith, rw split at done2))
                    | inr whole ↦
                        let done3 = rw tracked at (rw whole at done2) in
                        rw whole (
                          rw tracked (elim (Result-cases (reserve_stock p n s).0) [
                            | inr (e, failed) ↦ absurd (ground (arith, rw failed at done3))
                            | inl (u, right) ↦ rw right (
                                subst
                                  (λ x.
                                    IsReserved shop products batches x (after_round shop line db))
                                  (basket_eq (add_line row n b) b' (rw right at done3))
                                  (add_line-IsReserved line b row db line_ok h key right))
                          ]))
                  ])
            ])
      ]

  pub add_items-IsReserved :
      (lines : List OrderItemDto) (b b' : Basket) (db : Db)
      → All (IsTracked shop products) lines
      → IsReserved shop products batches b db
      → (add_items shop lines b db).0 ≡ ok b'
      → IsReserved shop products batches b' (add_items shop lines b db).1
  unfolding add_items
  add_items-IsReserved [] b b' db lines_ok h done =
      subst (λ x. IsReserved shop products batches x db) (basket_eq b b' done) h
  add_items-IsReserved (line ∷ rest) b b' db lines_ok h done =
      elim (Result-cases (add_item shop line b db).0) [
        | inr (e, failed) ↦ absurd (ground (arith, rw failed at done))
        | inl (next, first) ↦ rw first (
            add_items-IsReserved rest next b' _ lines_ok.1
              (add_item-IsReserved line b next db lines_ok.0 h first) (rw first at done))
      ]
