-- ===== src/Tests/SalesCases.antt =====
-- The theorems of orders and of their job at sample data.
use salepoint_backend.Prelude.{
  ◌<◌, ◌≡◌, refl, ap, subst, Option, none, some, List, [], ◌∷◌, All, arith,
}
use salepoint_backend.Exec.{ok, err, insufficient_stock, order_not_found}
use salepoint_backend.Entities.{OrderStatus, Order, OrderItem}
use salepoint_backend.Database.{Db}
use salepoint_backend.Database.Keeps.{IsUndone}
use salepoint_backend.Prelude.Int.{◌+ℤ◌, ◌-ℤ◌}
use salepoint_backend.Products.{find_raw_by_id, assert_quantity_for_unit}
use salepoint_backend.Inventory.{
  drained, reserve_stock, deduct_from_storage, deduct_oldest, deduct_batches, return_to_storage,
  upsert_stock_level,
}
use salepoint_backend.Orders.{
  Basket, Discount, CreateOrderDto, discount_amount, total_of, not_paid_of, order_row, create,
  add_items, add_item, mark_stock_deducted, place_order, effective_discount,
}
use salepoint_backend.Debts.{create_from_order}
use salepoint_backend.Double.{add}
use salepoint_backend.Double as Double
use salepoint_backend.Decimal.{to_fixed}
use salepoint_backend.Orders.{
  save_sale, open_debt, record_sale, add_line, empty_basket, SavedOrder, saved_order,
}
use salepoint_backend.Orders.Placed.{create_rolled_back}
use salepoint_backend.Queue.{handle_process_payment, deduct_unless, deduct_order, deduct_items}
use salepoint_backend.Queue.Once.{handle_process_payment_twice}
use salepoint_backend.Tests.Samples.{tea, order_in, db_with, line, request}

abbrev db : Db
db = db_with OrderStatus.confirmed

-- Two pieces at 3.00 with 10 % of tax, as the loop leaves them.
abbrev basket : Basket
basket = add_line tea 2000 empty_basket

abbrev no_discount : Discount
no_discount = record { kind = none; value = none }

-- 6.00 in cash of the 6.60.
abbrev in_cash : CreateOrderDto
in_cash = request (some 6_000_000_000) (some 5)

-- Ten of the five pieces in stock.
abbrev too_many : CreateOrderDto
too_many = record in_cash { items = line 10_000 ∷ [] }

refused : (create too_many 2 1 "ORD-2" db).0 ≡ err insufficient_stock
unfolding create add_items add_item reserve_stock find_raw_by_id assert_quantity_for_unit
    return_to_storage upsert_stock_level ◌+ℤ◌ ◌-ℤ◌
refused = refl

create_rolled_back_example :
    let after = (create too_many 2 1 "ORD-2" db).1 in IsUndone db after × (after.queue ≡ db.queue)
create_rolled_back_example = create_rolled_back too_many 2 1 "ORD-2" insufficient_stock db refused

abbrev items_of : Option Order → List OrderItem
items_of none = []
items_of (some o) = o.items

positive :
    (o : Order)
    → some (order_in OrderStatus.confirmed) ≡ some o
    → All (λ (i : OrderItem). 0 < i.quantity) o.items
positive o q = subst (All (λ (i : OrderItem). 0 < i.quantity)) (ap items_of q) (omega arith, tt)

no_order : (handle_process_payment 8 db).0 ≡ err order_not_found
unfolding handle_process_payment
no_order = refl

job_returns : (handle_process_payment 9 db).0 ≡ ok tt
unfolding handle_process_payment deduct_unless deduct_order deduct_items mark_stock_deducted
    deduct_from_storage deduct_oldest deduct_batches return_to_storage upsert_stock_level drained
    Double.of_ratio Double.sub
job_returns = refl

handle_process_payment_twice_example :
    let after = (handle_process_payment 9 db).1 in handle_process_payment 9 after ≡ (ok tt, after)
handle_process_payment_twice_example = handle_process_payment_twice 9 db job_returns

abbrev pub on_credit : CreateOrderDto
on_credit = request none (some 5)

abbrev pub created : SavedOrder
created = saved_order 20 1 "ORD-2" 2 on_credit basket no_discount

pub created_ok : (create on_credit 2 1 "ORD-2" db).0 ≡ ok created
unfolding create add_items add_item place_order save_sale open_debt create_from_order record_sale
    effective_discount total_of discount_amount not_paid_of order_row saved_order reserve_stock
    find_raw_by_id assert_quantity_for_unit return_to_storage upsert_stock_level to_fixed ◌+ℤ◌ ◌-ℤ◌
    Double.sub add add_line Double.mul Double.of_ratio Double.per_cent Double.to_fixed
created_ok = refl
