-- ===== src/Orders/Safety.antt =====
-- The operations on orders and the stock tables.
use salepoint_backend.Prelude.{
  ℕ, ◌≡◌, refl, Option-cases, not, Option, none, some, List, String, ltb, ◌&&◌, Bool-cases, inl,
  inr,
}
use salepoint_backend.Double.{add, to_column}
use salepoint_backend.Exec.{◌>>=◌, raise_if, cannot_cancel, not_confirmed, only_paid_returned}
use salepoint_backend.Inventory.Reserve.{reserve_stock-IsSafe, release_stock-IsSafe}
use salepoint_backend.Inventory.Receive.{return_to_storage-IsSafe}
use salepoint_backend.Database.{Db, order_of}
use salepoint_backend.Database.Keeps.{
  HasSafeStock, KeepsStock, bind-Keeps, transaction-Keeps, raise_if-Keeps,
}
use salepoint_backend.Debts.{create_from_order}
use salepoint_backend.Orders.Totals.{
  OrderItemDto, CreateOrderDto, Basket, empty_basket, Discount, effective_discount, total_of,
  not_paid_of, order_row, or_zero, payment_of, is_given,
}
use salepoint_backend.Orders.Loops.{
  IsKept, add_items-Keeps, release_items-Keeps, check_returns-Keeps, return_items-Keeps,
}
use salepoint_backend.Orders.Service.{
  add_items, open_debt, record_sale, save_sale, place_order, create, release_items, cancel,
  cancel_found, return_found, default_customer, check_returns, return_items, return_order, is_final,
  is_paid_order, mark_paid, is_confirmed,
}

pub stock_steps : IsKept HasSafeStock
stock_steps = record {
  reserves = λ p n db h. reserve_stock-IsSafe p n db.warehouse.stock h;
  releases = λ p n db h. release_stock-IsSafe p n db.warehouse.stock h;
  returns = λ p n price i by db h. return_to_storage-IsSafe p n price i by db.warehouse.stock h;
  looks = λ i shop db h. h;
}

record_sale_stock :
    (shift : Option ℕ) (cash card total : ℕ) (db : Db)
    → (record_sale shift cash card total db).warehouse.stock ≡ db.warehouse.stock
unfolding record_sale
record_sale_stock none cash card total db = refl
record_sale_stock (some i) cash card total db = refl

save_sale-KeepsStock :
    (dto : CreateOrderDto) (cashier shop : ℕ) (number : String) (b : Basket) (d : Discount)
    → KeepsStock (save_sale dto cashier shop number b d)
unfolding save_sale open_debt create_from_order
save_sale-KeepsStock dto cashier shop number b d db h =
    elim (Bool-cases (ltb 0 (order_row db.next_id shop number cashier dto b d).not_paid)) [
      | inl owed ↦ rw owed (
          rw
            (record_sale_stock dto.shift_id (or_zero dto.paid_by_cash) (or_zero dto.paid_by_card)
              (to_column (total_of b d)) _)
            h)
      | inr settled ↦ rw settled (
          rw
            (record_sale_stock dto.shift_id (or_zero dto.paid_by_cash) (or_zero dto.paid_by_card)
              (to_column (total_of b d)) _)
            h)
    ]

place_order-KeepsStock :
    (dto : CreateOrderDto) (cashier shop : ℕ) (number : String) (b : Basket)
    → KeepsStock (place_order dto cashier shop number b)
unfolding place_order
place_order-KeepsStock dto cashier shop number b db h =
    let d = effective_discount dto (default_customer dto shop db) in
    let total = total_of b d in
    let cash = payment_of dto.paid_by_cash in
    let card = payment_of dto.paid_by_card in
    elim (Bool-cases (ltb total (add cash card))) [
      | inl much ↦ rw much h
      | inr fits ↦
          rw fits
            (elim (Bool-cases
              (ltb 0 (not_paid_of total cash card) && not (is_given dto.customer_id))) [
                | inl nobody ↦ rw nobody h
                | inr owner ↦ rw owner (save_sale-KeepsStock dto cashier shop number b d db h)
              ])
    ]

-- `create` keeps the stock tables safe, whether it returns or throws.
pub create-KeepsStock :
    (dto : CreateOrderDto) (cashier shop : ℕ) (number : String)
    → KeepsStock (create dto cashier shop number)
unfolding create
create-KeepsStock dto cashier shop number =
    transaction-Keeps HasSafeStock
      (add_items shop dto.items empty_basket >>= place_order dto cashier shop number)
      (λ old db h. h)
      (bind-Keeps HasSafeStock (add_items shop dto.items empty_basket) _
        (add_items-Keeps HasSafeStock stock_steps shop dto.items empty_basket)
        (λ b. place_order-KeepsStock dto cashier shop number b))

cancel_found-KeepsStock : (i shop : ℕ) → KeepsStock (cancel_found i shop)
unfolding cancel_found
cancel_found-KeepsStock i shop db h = elim (Option-cases (order_of i (some shop) db)) [
  | inl missing ↦ rw missing h
  | inr (order, found) ↦ rw found (
      bind-Keeps HasSafeStock (raise_if (is_final order.status) cannot_cancel) _
        (raise_if-Keeps HasSafeStock (is_final order.status) cannot_cancel)
        (λ _.
          bind-Keeps HasSafeStock (release_items order.items) _
            (release_items-Keeps HasSafeStock stock_steps order.items) (λ _ db' h'. h'))
        db h)
]

-- `cancel` keeps the stock tables safe, whether it returns or throws.
pub cancel-KeepsStock : (i shop : ℕ) → KeepsStock (cancel i shop)
unfolding cancel
cancel-KeepsStock i shop =
    transaction-Keeps HasSafeStock (cancel_found i shop) (λ old db h. h)
      (cancel_found-KeepsStock i shop)

return_found-KeepsStock :
    (i : ℕ) (lines : List OrderItemDto) (cashier shop : ℕ)
    → KeepsStock (return_found i lines cashier shop)
unfolding return_found
return_found-KeepsStock i lines cashier shop db h =
    elim (Option-cases (order_of i (some shop) db)) [
      | inl missing ↦ rw missing h
      | inr (order, found) ↦ rw found (
          bind-Keeps HasSafeStock (raise_if (not (is_paid_order order.status)) only_paid_returned) _
            (raise_if-Keeps HasSafeStock (not (is_paid_order order.status)) only_paid_returned)
            (λ _.
              bind-Keeps HasSafeStock (check_returns shop order lines) _
                (check_returns-Keeps HasSafeStock stock_steps shop order lines)
                (λ _.
                  bind-Keeps HasSafeStock (return_items cashier order lines) _
                    (return_items-Keeps HasSafeStock stock_steps cashier order lines)
                    (λ _ db' h'. h')))
            db h)
    ]

-- `returnOrder` keeps the stock tables safe, whether it returns or throws.
pub return_order-KeepsStock :
    (i : ℕ) (lines : List OrderItemDto) (cashier shop : ℕ)
    → KeepsStock (return_order i lines cashier shop)
unfolding return_order
return_order-KeepsStock i lines cashier shop =
    transaction-Keeps HasSafeStock (return_found i lines cashier shop) (λ old db h. h)
      (return_found-KeepsStock i lines cashier shop)

pub mark_paid-KeepsStock : (i shop : ℕ) → KeepsStock (mark_paid i shop)
unfolding mark_paid
mark_paid-KeepsStock i shop db h = elim (Option-cases (order_of i (some shop) db)) [
  | inl missing ↦ rw missing h
  | inr (o, found) ↦ rw found (
      bind-Keeps HasSafeStock (raise_if (not (is_confirmed o.status)) not_confirmed) _
        (raise_if-Keeps HasSafeStock (not (is_confirmed o.status)) not_confirmed) (λ _ db' h'. h')
        db h)
]
