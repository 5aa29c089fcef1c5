-- ===== src/Reports/Service.antt =====
-- modules/reports/reports.service.ts. Amounts are in cents, quantities in thousandths, times in
-- milliseconds since 1970 in UTC. `created_at` gives the column of that name by the key of an
-- order: the database fills it when the row is added. Caches of the summary for five minutes are
-- left to the caller of these functions.
use text.Mathlib.Text.{◌==◌ as str_eq}
use salepoint_backend.Prelude.{
  ℕ, ◌+◌, ◌-◌, ◌*◌, ◌/◌, ◌%◌, Bool, true, false, ◌&&◌, List, [], ◌∷◌, ◌++◌, map, String, ◌==◌, leb,
  filter_by, sum_by, length, take, if◌then◌else◌,
}
use salepoint_backend.Entities.{Order, OrderItem, OrderStatus}
use salepoint_backend.Reports.Defs.{Group, group_by, order_by, ascending, by_sum_descending}

abbrev pub is_paid_order : OrderStatus → Bool
is_paid_order OrderStatus.paid = true
is_paid_order _ = false

pub record SalesSummary : Type 0 where
  pub total_revenue : ℕ
  pub total_orders : ℕ
  pub total_tax : ℕ
  pub total_discount : ℕ

-- `averageOrderValue`, AVG as a fraction: COALESCE gives 0 where there is no order.
abbrev pub average_order_value : SalesSummary → ℕ × ℕ
average_order_value s = if s.total_orders == 0 then (0, 1) else (s.total_revenue, s.total_orders)

pub record TopProduct : Type 0 where
  pub product_id : ℕ
  pub name : String
  pub quantity_sold : ℕ

pub record PaymentBreakdown : Type 0 where
  pub cash : ℕ
  pub card : ℕ

-- `date.setHours(0, 0, 0, 0)` and `date.setHours(23, 59, 59, 999)` on a server whose clock is
-- `offset` milliseconds ahead of UTC.
abbrev pub start_of_day : ℕ → ℕ → ℕ
start_of_day offset date = (date + offset) / 86400000 * 86400000 - offset

abbrev pub end_of_day : ℕ → ℕ → ℕ
end_of_day offset date = start_of_day offset date + 86399999

abbrev pub utc_day : ℕ → ℕ
utc_day time = time / 86400000

abbrev pub utc_hour : ℕ → ℕ
utc_hour time = time / 3600000 % 24

-- The key of a group of order lines.
pub record ProductName : Type 0 where
  pub product_id : ℕ
  pub name : String

abbrev pub same_product : ProductName → ProductName → Bool
same_product a b = a.product_id == b.product_id && str_eq a.name b.name

abbrev pub lines_of : List Order → List OrderItem
lines_of [] = []
lines_of (o ∷ os) = o.items ++ lines_of os

module _ (created_at : ℕ → ℕ) where
  -- The conditions that every report has.
  abbrev pub is_sale : ℕ → ℕ → ℕ → Order → Bool
  is_sale shop_id from to o =
      (o.shop_id == shop_id)
      && is_paid_order o.status
      && leb from (created_at o.id)
      && leb (created_at o.id) to

  abbrev pub sales : ℕ → ℕ → ℕ → List Order → List Order
  sales shop_id from to = filter_by (is_sale shop_id from to)

  unfoldable pub get_sales_summary : ℕ → ℕ → ℕ → List Order → SalesSummary
  get_sales_summary shop_id from to orders =
      let rows = sales shop_id from to orders in
      record {
        total_revenue = sum_by (λ o. o.total) rows;
        total_orders = length rows;
        total_tax = sum_by (λ o. o.tax_amount) rows;
        total_discount = sum_by (λ o. o.discount_amount) rows;
      }

  unfoldable pub get_sales_by_day : ℕ → ℕ → ℕ → List Order → List (Group ℕ)
  unfolding group_by order_by
  get_sales_by_day shop_id from to orders =
      order_by (ascending (λ d. d)) (
        group_by ◌==◌ (λ o. utc_day (created_at o.id)) (λ o. o.total)
          (sales shop_id from to orders))

  unfoldable pub get_sales_by_hour : ℕ → ℕ → ℕ → List Order → List (Group ℕ)
  unfolding group_by order_by
  get_sales_by_hour offset shop_id date orders = order_by (ascending (λ h. h)) (
      group_by ◌==◌ (λ o. utc_hour (created_at o.id)) (λ o. o.total)
        (sales shop_id (start_of_day offset date) (end_of_day offset date) orders))

  -- The groups with SUM(quantity), before `parseInt`.
  unfoldable pub product_groups : ℕ → ℕ → ℕ → List Order → List (Group ProductName)
  unfolding group_by order_by
  product_groups shop_id from to orders = order_by by_sum_descending (
      group_by same_product (λ i. record { product_id = i.product_id; name = i.name })
        (λ i. i.quantity) (lines_of (sales shop_id from to orders)))

  -- `parseInt(r.quantitySold, 10)` drops the decimals.
  abbrev pub top_product : Group ProductName → TopProduct
  top_product g = record {
    product_id = g.key.product_id;
    name = g.key.name;
    quantity_sold = g.sum / 1000;
  }

  unfoldable pub get_top_products : ℕ → ℕ → ℕ → ℕ → List Order → List TopProduct
  unfolding product_groups
  get_top_products shop_id from to limit orders =
      map top_product (take limit (product_groups shop_id from to orders))

  unfoldable pub get_sales_by_cashier : ℕ → ℕ → ℕ → List Order → List (Group ℕ)
  unfolding group_by order_by
  get_sales_by_cashier shop_id from to orders =
      order_by by_sum_descending
        (group_by ◌==◌ (λ o. o.cashier_id) (λ o. o.total) (sales shop_id from to orders))

  unfoldable pub get_payment_method_breakdown : ℕ → ℕ → ℕ → List Order → PaymentBreakdown
  get_payment_method_breakdown shop_id from to orders =
      let rows = sales shop_id from to orders in
      record { cash = sum_by (λ o. o.paid_by_cash) rows; card = sum_by (λ o. o.paid_by_card) rows }
