-- ===== src/Orders/Positive.antt =====
-- The methods of OrdersService keep the quantities of the stored orders positive.
use salepoint_backend.Prelude.{
  ℕ, ◌<◌, ◌==◌, ◌&&◌, ◌≡◌, sym, subst, some, true, List, [], ◌∷◌, String, not, All, All-append, inl,
  inr, Option-cases, arith,
}
use salepoint_backend.Prelude.Table.{save, All-save, All-update_every, All-find_first}
use salepoint_backend.Exec.{
  ok, Result-cases, ◌>>=◌, raise_if, cannot_cancel, only_paid_returned, not_confirmed,
}
use salepoint_backend.Entities.{Order, OrderItem, OrderStatus, order_key}
use salepoint_backend.Database.{Db, order_of, scoped}
use salepoint_backend.Database.Keeps.{
  Keeps, bind_after, bind-Keeps, transaction-Keeps, raise_if-Keeps,
}
use salepoint_backend.Orders.Totals.{
  OrderItemDto, CreateOrderDto, Basket, empty_basket, add_line, order_row, effective_discount,
}
use salepoint_backend.Orders.Service.{
  add_item, add_items, place_order, create, default_customer, release_items, cancel_found, cancel,
  is_final, mark_paid, is_confirmed, mark_stock_deducted, check_returns, return_items, return_found,
  return_order, is_paid_order,
}
use salepoint_backend.Orders.Lines.{add_item_ok, basket_eq}
use salepoint_backend.Orders.Placed.{place_order_outcome}
use salepoint_backend.Orders.Reserved.{ArePositive}
use salepoint_backend.Orders.Loops.{
  IsKept, add_items-Keeps, release_items-Keeps, check_returns-Keeps, return_items-Keeps,
}

-- Every item of a stored order has a positive quantity.
abbrev pub AllPositive : Db → Type 0
AllPositive db = All (λ o. ArePositive o.items) db.orders

steps : IsKept AllPositive
steps = record {
  reserves = λ p n db h. h;
  releases = λ p n db h. h;
  returns = λ p n price i by db h. h;
  looks = λ i shop db h. h;
}

save-AllPositive :
    (o : Order) (db : Db)
    → AllPositive db
    → ArePositive o.items
    → All (λ p. ArePositive p.items) (save order_key o db.orders)
save-AllPositive o db h own = All-save order_key (λ p. ArePositive p.items) o db.orders h own

stored-ArePositive :
    (i shop : ℕ) (o : Order) (db : Db)
    → AllPositive db
    → order_of i (some shop) db ≡ some o
    → ArePositive o.items
stored-ArePositive i shop o db h found =
    All-find_first order_key (λ p. ArePositive p.items)
      (λ p. p.id == i && scoped (some shop) p.shop_id) o db.orders h found

add_items-ArePositive :
    (shop : ℕ) (lines : List OrderItemDto) (b b' : Basket) (db : Db)
    → All (λ (l : OrderItemDto). 0 < l.quantity) lines
    → ArePositive b.items
    → (add_items shop lines b db).0 ≡ ok b'
    → ArePositive b'.items
unfolding add_items add_line
add_items-ArePositive shop [] b b' db positive h done =
    subst (λ x. ArePositive x.items) (basket_eq b b' done) h
add_items-ArePositive shop (line ∷ rest) b b' db positive h done =
    elim (Result-cases (add_item shop line b db).0) [
      | inr (e, failed) ↦ absurd (ground (arith, rw failed at done))
      | inl (next, first) ↦
          let (p, grown) = add_item_ok shop line b next db first in
          add_items-ArePositive shop rest next b' _ positive.1
            (subst (λ x. ArePositive x.items) (sym grown)
              (All-append (λ (i : OrderItem). 0 < i.quantity) b.items (_ ∷ []) h (positive.0, tt)))
            (rw first at done)
    ]

place_order-AllPositive :
    (dto : CreateOrderDto) (cashier shop : ℕ) (number : String) (b : Basket) (db : Db)
    → AllPositive db
    → ArePositive b.items
    → AllPositive (place_order dto cashier shop number b db).1
unfolding order_row
place_order-AllPositive dto cashier shop number b db h own =
    let o =
      order_row db.next_id shop number cashier dto b
        (effective_discount dto (default_customer dto shop db)) in
    elim (place_order_outcome dto cashier shop number b db) [
      | inl (much, refused) ↦ rw refused h
      | inr (inl (owed, nobody, refused)) ↦ rw refused h
      | inr (inr (fits, right, placed)) ↦ rw placed.rows (save-AllPositive o db h own)
    ]

pub create-AllPositive :
    (dto : CreateOrderDto) (cashier shop : ℕ) (number : String)
    → All (λ (l : OrderItemDto). 0 < l.quantity) dto.items
    → Keeps AllPositive (create dto cashier shop number)
unfolding create
create-AllPositive dto cashier shop number positive =
    transaction-Keeps AllPositive
      (add_items shop dto.items empty_basket >>= place_order dto cashier shop number)
      (λ old db h. h)
      (λ db h.
        let filled = add_items-Keeps AllPositive steps shop dto.items empty_basket db h in
        bind_after AllPositive (add_items shop dto.items empty_basket) _ db filled (λ b done.
          place_order-AllPositive dto cashier shop number b _ filled
            (add_items-ArePositive shop dto.items empty_basket b db positive tt done)))

pub cancel-AllPositive : (i shop : ℕ) → Keeps AllPositive (cancel i shop)
unfolding cancel cancel_found
cancel-AllPositive i shop =
    transaction-Keeps AllPositive (cancel_found i shop) (λ old db h. h)
      (λ db h. elim (Option-cases (order_of i (some shop) db)) [
        | inl missing ↦ rw missing h
        | inr (o, found) ↦ rw found (
            bind-Keeps AllPositive (raise_if (is_final o.status) cannot_cancel) _
              (raise_if-Keeps AllPositive (is_final o.status) cannot_cancel)
              (λ _.
                bind-Keeps AllPositive (release_items o.items) _
                  (release_items-Keeps AllPositive steps o.items)
                  (λ _ db' h'.
                    save-AllPositive (record o { status = OrderStatus.cancelled }) db' h'
                      (stored-ArePositive i shop o db h found)))
              db h)
      ])

pub return_order-AllPositive :
    (i : ℕ) (lines : List OrderItemDto) (cashier shop : ℕ)
    → Keeps AllPositive (return_order i lines cashier shop)
unfolding return_order return_found
return_order-AllPositive i lines cashier shop =
    transaction-Keeps AllPositive (return_found i lines cashier shop) (λ old db h. h)
      (λ db h. elim (Option-cases (order_of i (some shop) db)) [
        | inl missing ↦ rw missing h
        | inr (o, found) ↦ rw found (
            bind-Keeps AllPositive (raise_if (not (is_paid_order o.status)) only_paid_returned) _
              (raise_if-Keeps AllPositive (not (is_paid_order o.status)) only_paid_returned)
              (λ _.
                bind-Keeps AllPositive (check_returns shop o lines) _
                  (check_returns-Keeps AllPositive steps shop o lines)
                  (λ _.
                    bind-Keeps AllPositive (return_items cashier o lines) _
                      (return_items-Keeps AllPositive steps cashier o lines)
                      (λ _ db' h'.
                        save-AllPositive (record o { status = OrderStatus.refunded }) db' h'
                          (stored-ArePositive i shop o db h found))))
              db h)
      ])

pub mark_paid-AllPositive : (i shop : ℕ) → Keeps AllPositive (mark_paid i shop)
unfolding mark_paid
mark_paid-AllPositive i shop db h = elim (Option-cases (order_of i (some shop) db)) [
  | inl missing ↦ rw missing h
  | inr (o, found) ↦ rw found (
      bind-Keeps AllPositive (raise_if (not (is_confirmed o.status)) not_confirmed) _
        (raise_if-Keeps AllPositive (not (is_confirmed o.status)) not_confirmed)
        (λ _ db' h'.
          save-AllPositive (record o { status = OrderStatus.paid }) db' h'
            (stored-ArePositive i shop o db h found))
        db h)
]

pub mark_stock_deducted-AllPositive :
    (i : ℕ) (db : Db) → AllPositive db → AllPositive (mark_stock_deducted i db)
unfolding mark_stock_deducted
mark_stock_deducted-AllPositive i db h =
    All-update_every order_key (λ p. ArePositive p.items) i
      (λ o. record o { stock_deducted = true }) db.orders (λ o own. own) h
