-- ===== src/Orders/Service.antt =====
-- modules/orders/orders.service.ts: the methods that change orders.
use salepoint_backend.Prelude.{
  ℕ, ◌+◌, Bool, true, false, not, ◌&&◌, Option, none, some, List, [], ◌∷◌, ◌++◌, String, ltb, ◌==◌,
  if◌then◌else◌, find_first,
}
use salepoint_backend.Prelude.Table.{update_by_id}
use salepoint_backend.Double.{add, to_column}
use salepoint_backend.Decimal.{to_fixed, of_cents}
use salepoint_backend.Exec.{
  Exec, pure, gets, or_raise, raise_if, modify, ◌>>=◌, ◌>>◌, product_inactive,
  payment_exceeds_total, customer_required, order_not_found, cannot_cancel, not_confirmed,
  only_paid_returned, product_not_in_order, return_exceeds_ordered,
}
use salepoint_backend.Products.{Product, find_raw_by_id, assert_quantity_for_unit}
use salepoint_backend.Inventory.{reserve_stock, release_stock, return_to_storage}
use salepoint_backend.Entities.{
  Order, OrderItem, OrderStatus, order_key, Shift, shift_key, Customer,
}
use salepoint_backend.Database.{
  Db, in_stock_tables, in_catalog, transaction, order_of, customer_of, save_order, fresh_id,
}
use salepoint_backend.Debts.{create_from_order}
use salepoint_backend.Orders.Totals.{
  OrderItemDto, CreateOrderDto, Basket, empty_basket, add_line, Discount, effective_discount,
  total_of, not_paid_of, order_row, or_zero, is_given, payment_of, SavedOrder, saved_order,
}

-- `if (product.trackStock) await reserveStock(…)`
abbrev pub reserve_tracked : Product → OrderItemDto → Exec Db (Unit {0})
reserve_tracked product line =
    if product.track_stock
    then in_stock_tables (reserve_stock line.product_id line.quantity)
    else pure tt

-- One round of the loop over the lines.
unfoldable pub add_item : ℕ → OrderItemDto → Basket → Exec Db Basket
add_item shop_id line b = do
  product ← in_catalog (find_raw_by_id line.product_id (some shop_id))
  raise_if (not product.is_active) product_inactive
  assert_quantity_for_unit product line.quantity
  reserve_tracked product line
  pure (add_line product line.quantity b)

unfoldable pub add_items : ℕ → List OrderItemDto → Basket → Exec Db Basket
add_items shop_id [] b = pure b
add_items shop_id (line ∷ rest) b = do b' ← add_item shop_id line b; add_items shop_id rest b'

-- The customer whose default discount applies, where the request needs one.
abbrev pub default_customer : CreateOrderDto → ℕ → Db → Option Customer
default_customer dto shop_id db = elim dto.customer_id [
  | none ↦ none
  | some c ↦ customer_of c shop_id db
]

-- `if (notPaid > 0) await createFromOrder(…)`
unfoldable pub open_debt : Order → ℕ → Exec Db (Unit {0})
open_debt order cashier_id =
    if ltb 0 order.not_paid then (create_from_order order cashier_id >> pure tt) else pure tt

-- `cash_sales + :cash` and the like; each column rounds its sum. `total` is in cents already: what
-- a whole number of cents and the double round to is the sum of what each does.
unfoldable pub add_sale : ℕ → ℕ → ℕ → Shift → Shift
unfolding to_fixed
add_sale cash card total s = record s {
  cash_sales = to_fixed (of_cents s.cash_sales + cash);
  card_sales = to_fixed (of_cents s.card_sales + card);
  total_sales = s.total_sales + total;
  order_count = s.order_count + 1;
}

-- `if (dto.shiftId) …`
unfoldable pub record_sale : Option ℕ → ℕ → ℕ → ℕ → Db → Db
unfolding add_sale
record_sale none cash card total db = db
record_sale (some i) cash card total db = record db {
  shifts = update_by_id shift_key i (add_sale cash card total) db.shifts;
}

-- `ordersQueue.add('process-payment', { orderId })`
abbrev pub enqueue : ℕ → Db → Db
enqueue i db = record db { queue = db.queue ++ (i ∷ []) }

-- The writes of `create`, once the totals are checked.
unfoldable pub save_sale : CreateOrderDto → ℕ → ℕ → String → Basket → Discount → Exec Db SavedOrder
unfolding total_of order_row saved_order record_sale open_debt
save_sale dto cashier_id shop_id order_number b d = do
  id ← fresh_id
  let order = order_row id shop_id order_number cashier_id dto b d
  modify (save_order order)
  open_debt order cashier_id
  modify (
      record_sale dto.shift_id (or_zero dto.paid_by_cash) (or_zero dto.paid_by_card)
        (to_column (total_of b d)))
  modify (enqueue id)
  pure (saved_order id shop_id order_number cashier_id dto b d)

-- What `create` does once the items are in the basket.
unfoldable pub place_order : CreateOrderDto → ℕ → ℕ → String → Basket → Exec Db SavedOrder
unfolding effective_discount total_of not_paid_of save_sale
place_order dto cashier_id shop_id order_number b = do
  customer ← gets (default_customer dto shop_id)
  let d = effective_discount dto customer
  let total = total_of b d
  let cash = payment_of dto.paid_by_cash
  let card = payment_of dto.paid_by_card
  raise_if (ltb total (add cash card)) payment_exceeds_total
  raise_if (ltb 0 (not_paid_of total cash card) && not (is_given dto.customer_id)) customer_required
  save_sale dto cashier_id shop_id order_number b d

-- `order_number` is what `generateOrderNumber` made of the clock and of a random number. The
-- receipt, printed on request, changes nothing.
unfoldable pub create : CreateOrderDto → ℕ → ℕ → String → Exec Db SavedOrder
create dto cashier_id shop_id order_number =
    transaction
      (add_items shop_id dto.items empty_basket >>= place_order dto cashier_id shop_id order_number)

-- `[PAID, REFUNDED].includes(status)`
abbrev pub is_final : OrderStatus → Bool
is_final OrderStatus.paid = true
is_final OrderStatus.refunded = true
is_final _ = false

unfoldable pub release_items : List OrderItem → Exec Db (Unit {0})
release_items [] = pure tt
release_items (item ∷ rest) = do
  in_stock_tables (release_stock item.product_id item.quantity)
  release_items rest

-- The transaction's body.
unfoldable pub cancel_found : ℕ → ℕ → Exec Db Order
cancel_found i shop_id = do
  order ← or_raise (← gets (order_of i (some shop_id))) order_not_found
  raise_if (is_final order.status) cannot_cancel
  release_items order.items
  modify (save_order (record order { status = OrderStatus.cancelled }))
  pure (record order { status = OrderStatus.cancelled })

unfoldable pub cancel : ℕ → ℕ → Exec Db Order
cancel i shop_id = transaction (cancel_found i shop_id)

abbrev pub is_confirmed : OrderStatus → Bool
is_confirmed OrderStatus.confirmed = true
is_confirmed _ = false

unfoldable pub mark_paid : ℕ → ℕ → Exec Db Order
mark_paid i shop_id = do
  order ← or_raise (← gets (order_of i (some shop_id))) order_not_found
  raise_if (not (is_confirmed order.status)) not_confirmed
  modify (save_order (record order { status = OrderStatus.paid }))
  pure (record order { status = OrderStatus.paid })

unfoldable pub mark_stock_deducted : ℕ → Db → Db
mark_stock_deducted i db = record db {
  orders = update_by_id order_key i (λ o. record o { stock_deducted = true }) db.orders;
}

abbrev pub is_paid_order : OrderStatus → Bool
is_paid_order OrderStatus.paid = true
is_paid_order _ = false

-- `order.items.find((i) => i.productId === …)`
abbrev pub item_of : ℕ → List OrderItem → Option OrderItem
item_of p items = find_first (λ item. item.product_id == p) items

-- The checks of the first loop of `returnOrder`.
unfoldable pub check_return : ℕ → Order → OrderItemDto → Exec Db (Unit {0})
check_return shop_id order line = do
  ordered ← or_raise (item_of line.product_id order.items) product_not_in_order
  raise_if (ltb ordered.quantity line.quantity) return_exceeds_ordered
  product ← in_catalog (find_raw_by_id line.product_id (some shop_id))
  assert_quantity_for_unit product line.quantity

unfoldable pub check_returns : ℕ → Order → List OrderItemDto → Exec Db (Unit {0})
check_returns shop_id order [] = pure tt
check_returns shop_id order (line ∷ rest) = do
  check_return shop_id order line
  check_returns shop_id order rest

-- The second loop; every item is there, by the first one.
unfoldable pub return_items : ℕ → Order → List OrderItemDto → Exec Db (Unit {0})
return_items cashier_id order [] = pure tt
return_items cashier_id order (line ∷ rest) = do
  ordered ← or_raise (item_of line.product_id order.items) product_not_in_order
  in_stock_tables
      (return_to_storage line.product_id line.quantity ordered.price order.id cashier_id)
  return_items cashier_id order rest

-- The transaction's body.
unfoldable pub return_found : ℕ → List OrderItemDto → ℕ → ℕ → Exec Db Order
return_found i lines cashier_id shop_id = do
  order ← or_raise (← gets (order_of i (some shop_id))) order_not_found
  raise_if (not (is_paid_order order.status)) only_paid_returned
  check_returns shop_id order lines
  return_items cashier_id order lines
  modify (save_order (record order { status = OrderStatus.refunded }))
  pure (record order { status = OrderStatus.refunded })

unfoldable pub return_order : ℕ → List OrderItemDto → ℕ → ℕ → Exec Db Order
return_order i lines cashier_id shop_id = transaction (return_found i lines cashier_id shop_id)
