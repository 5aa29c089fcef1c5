-- ===== src/Orders/Loops.antt =====
-- The loops of `create`, `cancel` and `returnOrder` keep what their steps on the stock keep.
use salepoint_backend.Prelude.{ℕ, not, some, List, [], ◌∷◌, ltb, ◌&&◌, Bool-cases, inl, inr}
use salepoint_backend.Exec.{
  or_raise, raise_if, product_inactive, product_not_in_order, return_exceeds_ordered,
  whole_quantity_required,
}
use salepoint_backend.Products.{
  find_raw_by_id, assert_quantity_for_unit, Product, is_piece, is_whole,
}
use salepoint_backend.Inventory.{reserve_stock, release_stock, return_to_storage}
use salepoint_backend.Entities.{Order, OrderItem}
use salepoint_backend.Database.{Db, in_stock_tables, in_catalog}
use salepoint_backend.Database.Keeps.{Keeps, bind-Keeps, raise_if-Keeps, or_raise-Keeps}
use salepoint_backend.Orders.Totals.{OrderItemDto, Basket}
use salepoint_backend.Orders.Service.{
  reserve_tracked, add_item, add_items, release_items, check_return, check_returns, return_items,
  item_of,
}

-- A predicate of the tables that reservations, releases, returns and lookups of products keep.
pub record IsKept (P : Db → Type 0) : Type 0 where
  pub reserves : (p n : ℕ) → Keeps P (in_stock_tables (reserve_stock p n))
  pub releases : (p n : ℕ) → Keeps P (in_stock_tables (release_stock p n))
  pub returns : (p n price i by : ℕ) → Keeps P (in_stock_tables (return_to_storage p n price i by))
  pub looks : (i shop : ℕ) → Keeps P (in_catalog (find_raw_by_id i (some shop)))

module _ (P : Db → Type 0) (kept : IsKept P) where
  unit-Keeps : (p : Product) (q : ℕ) → Keeps P (assert_quantity_for_unit p q)
  unfolding assert_quantity_for_unit
  unit-Keeps p q db h =
      raise_if-Keeps P (is_piece p.unit_type && not (is_whole q)) whole_quantity_required db h

  reserve-Keeps : (p : Product) (line : OrderItemDto) → Keeps P (reserve_tracked p line)
  reserve-Keeps p line db h = elim (Bool-cases p.track_stock) [
    | inl tracked ↦ rw tracked (kept.reserves line.product_id line.quantity db h)
    | inr untracked ↦ rw untracked h
  ]

  add_item-Keeps : (shop : ℕ) (line : OrderItemDto) (b : Basket) → Keeps P (add_item shop line b)
  unfolding add_item
  add_item-Keeps shop line b =
      bind-Keeps P (in_catalog (find_raw_by_id line.product_id (some shop))) _
        (kept.looks line.product_id shop)
        (λ p.
          bind-Keeps P (raise_if (not p.is_active) product_inactive) _
            (raise_if-Keeps P (not p.is_active) product_inactive)
            (λ _.
              bind-Keeps P (assert_quantity_for_unit p line.quantity) _ (unit-Keeps p line.quantity)
                (λ _.
                  bind-Keeps P (reserve_tracked p line) _ (reserve-Keeps p line) (λ _ db h. h))))

  pub add_items-Keeps :
      (shop : ℕ) (lines : List OrderItemDto) (b : Basket) → Keeps P (add_items shop lines b)
  unfolding add_items
  add_items-Keeps shop [] b db h = h
  add_items-Keeps shop (line ∷ rest) b db h =
      bind-Keeps P (add_item shop line b) _ (add_item-Keeps shop line b)
        (λ b'. add_items-Keeps shop rest b') db h

  pub release_items-Keeps : (items : List OrderItem) → Keeps P (release_items items)
  unfolding release_items
  release_items-Keeps [] db h = h
  release_items-Keeps (item ∷ rest) db h =
      bind-Keeps P (in_stock_tables (release_stock item.product_id item.quantity)) _
        (kept.releases item.product_id item.quantity) (λ _. release_items-Keeps rest) db h

  check_return-Keeps :
      (shop : ℕ) (order : Order) (line : OrderItemDto) → Keeps P (check_return shop order line)
  unfolding check_return
  check_return-Keeps shop order line =
      bind-Keeps P (or_raise (item_of line.product_id order.items) product_not_in_order) _
        (or_raise-Keeps P (item_of line.product_id order.items) product_not_in_order)
        (λ ordered.
          bind-Keeps P (raise_if (ltb ordered.quantity line.quantity) return_exceeds_ordered) _
            (raise_if-Keeps P (ltb ordered.quantity line.quantity) return_exceeds_ordered)
            (λ _.
              bind-Keeps P (in_catalog (find_raw_by_id line.product_id (some shop))) _
                (kept.looks line.product_id shop) (λ product. unit-Keeps product line.quantity)))

  pub check_returns-Keeps :
      (shop : ℕ) (order : Order) (lines : List OrderItemDto)
      → Keeps P (check_returns shop order lines)
  unfolding check_returns
  check_returns-Keeps shop order [] db h = h
  check_returns-Keeps shop order (line ∷ rest) db h =
      bind-Keeps P (check_return shop order line) _ (check_return-Keeps shop order line)
        (λ _. check_returns-Keeps shop order rest) db h

  pub return_items-Keeps :
      (cashier : ℕ) (order : Order) (lines : List OrderItemDto)
      → Keeps P (return_items cashier order lines)
  unfolding return_items
  return_items-Keeps cashier order [] db h = h
  return_items-Keeps cashier order (line ∷ rest) db h =
      bind-Keeps P (or_raise (item_of line.product_id order.items) product_not_in_order) _
        (or_raise-Keeps P (item_of line.product_id order.items) product_not_in_order)
        (λ ordered.
          bind-Keeps P
            (in_stock_tables
              (return_to_storage line.product_id line.quantity ordered.price order.id cashier))
            _ (kept.returns line.product_id line.quantity ordered.price order.id cashier)
            (λ _. return_items-Keeps cashier order rest))
        db h
