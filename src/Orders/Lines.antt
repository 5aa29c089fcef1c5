-- ===== src/Orders/Lines.antt =====
-- The loop of `create` over the lines of a request.
use salepoint_backend.Prelude.{ℕ, ◌≡◌, not, some}
use salepoint_backend.Exec.{ok, resume_ok, raise_if, product_inactive}
use salepoint_backend.Products.{Product, find_raw_by_id, assert_quantity_for_unit}
use salepoint_backend.Database.{Db, in_catalog}
use salepoint_backend.Orders.Totals.{OrderItemDto, Basket, add_line}
use salepoint_backend.Orders.Service.{add_item, reserve_tracked}

-- What a round leaves where it returns: one more item, for the product and the quantity of the line.
pub add_item_ok :
    (shop : ℕ) (line : OrderItemDto) (b b' : Basket) (db : Db)
    → (add_item shop line b db).0 ≡ ok b'
    → (p : Product) × (b' ≡ add_line p line.quantity b)
unfolding add_item
add_item_ok shop line b b' db done =
    let (p, found, d1) =
      resume_ok (in_catalog (find_raw_by_id line.product_id (some shop)) db) _ b' done in
    let (u, working, d2) = resume_ok (raise_if (not p.is_active) product_inactive _) _ b' d1 in
    let (v, whole, d3) = resume_ok (assert_quantity_for_unit p line.quantity _) _ b' d2 in
    let (w, reserved, d4) = resume_ok (reserve_tracked p line _) _ b' d3 in (p, cc)

pub basket_eq : (b b' : Basket) → ok b ≡ ok b' → b ≡ b'
basket_eq b b' e = cc
