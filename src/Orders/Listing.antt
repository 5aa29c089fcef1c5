-- ===== src/Orders/Listing.antt =====
-- `findAll` and `findByCustomer` of orders.service.ts. The column `createdAt`, which the rows of the
-- model leave out, is an argument, and so is ORDER BY createdAt DESC, `sort`.
use salepoint_backend.Prelude.{
  ℕ, ◌==◌, Bool, true, false, ◌&&◌, Option, none, some, List, String, leb,
}
use salepoint_backend.Pagination.{PaginationQuery, PaginatedResult, page_of, asked}
use salepoint_backend.Entities.{Order, OrderStatus}
use salepoint_backend.Database.{scoped}
use salepoint_backend.Products.{search_text}

pub record OrderQuery : Type 0 where
  pub page : PaginationQuery
  pub status : Option OrderStatus
  pub cashier_id : Option ℕ
  pub from : Option ℕ
  pub to : Option ℕ

abbrev same_order_status : OrderStatus → OrderStatus → Bool
same_order_status OrderStatus.pending OrderStatus.pending = true
same_order_status OrderStatus.confirmed OrderStatus.confirmed = true
same_order_status OrderStatus.paid OrderStatus.paid = true
same_order_status OrderStatus.refunded OrderStatus.refunded = true
same_order_status OrderStatus.cancelled OrderStatus.cancelled = true
same_order_status _ _ = false

module _ (ilike : String → String → Bool) (created_at : Order → ℕ) where
  unfoldable pub is_wanted : Option ℕ → OrderQuery → Order → Bool
  is_wanted shop q o =
      scoped shop o.shop_id
      && asked (λ st. same_order_status o.status st) q.status
      && asked (λ c. o.cashier_id == c) q.cashier_id
      && asked (λ t. leb t (created_at o)) q.from
      && asked (λ t. leb (created_at o) t) q.to
      && asked (λ s. ilike o.order_number s) (search_text q.page.search)

  unfoldable pub find_all :
      (List Order → List Order) → Option ℕ → OrderQuery → List Order → PaginatedResult Order
  unfolding is_wanted page_of
  find_all sort shop q = page_of sort (is_wanted shop q) q.page

abbrev pub is_customer : ℕ → Option ℕ → Bool
is_customer c none = false
is_customer c (some d) = d == c

unfoldable pub find_by_customer :
    (List Order → List Order) → ℕ → ℕ → PaginationQuery → List Order → PaginatedResult Order
unfolding page_of
find_by_customer sort customer shop =
    page_of sort (λ o. is_customer customer o.customer_id && o.shop_id == shop)
