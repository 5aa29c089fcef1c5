-- ===== src/Reports/Dashboard.antt =====
-- modules/dashboard/dashboard.controller.ts, and `getLowStockProducts` of
-- modules/inventory/inventory.service.ts, which it calls.
use salepoint_backend.Prelude.{
  ℕ, ◌+◌, ◌-◌, ◌*◌, ◌/◌, ◌≤◌, ◌≡◌, Bool, false, not, ◌&&◌, Option, none, some, List, ◌==◌, arith,
  find_first, filter_by, length,
}
use salepoint_backend.Prelude.Int.{pos, ltb_ℤ}
use salepoint_backend.Products.{Product}
use salepoint_backend.Inventory.{StockLevel, Warehouse, is_shop}
use salepoint_backend.Entities.{Order}
use salepoint_backend.Reports.Service.{
  SalesSummary, TopProduct, PaymentBreakdown, get_sales_summary, get_top_products,
  get_payment_method_breakdown, utc_day,
}

-- `TZ_OFFSET_MS`, UTC+5
abbrev tz_offset : ℕ
tz_offset = 18_000_000

-- `Date.UTC(y, m, d, 0, 0, 0, 0) - TZ_OFFSET_MS`, of the date at `now` in Tashkent.
unfoldable pub start_of_today : ℕ → ℕ
start_of_today now = (now + tz_offset) / 86_400_000 * 86_400_000 - tz_offset

-- `Date.UTC(y, m, d, 23, 59, 59, 999) - TZ_OFFSET_MS`
unfoldable pub end_of_today : ℕ → ℕ
end_of_today now = (now + tz_offset) / 86_400_000 * 86_400_000 + 86_399_999 - tz_offset

abbrev is_watched : Option Product → Bool
is_watched none = false
is_watched (some p) = p.track_stock && p.is_active

-- The product joined to a level is one that is not soft-deleted.
abbrev is_low : ℕ → List Product → StockLevel → Bool
is_low shop_id products l =
    is_shop l.shop_id shop_id
    && not (ltb_ℤ (pos l.reorder_point) l.quantity_on_hand)
    && is_watched (find_first (λ p. (p.id == l.product_id) && not p.deleted) products)

unfoldable pub get_low_stock_products : ℕ → Warehouse → List StockLevel
get_low_stock_products shop_id w = filter_by (is_low shop_id w.catalog.products) w.stock.levels

pub record Overview : Type 0 where
  pub summary : SalesSummary
  pub top_products : List TopProduct
  pub payment_methods : PaymentBreakdown
  pub low_stock_alerts : ℕ

unfoldable pub get_overview : (ℕ → ℕ) → ℕ → ℕ → List Order → Warehouse → Overview
unfolding get_low_stock_products start_of_today end_of_today
get_overview created_at now shop_id orders w =
    let from = start_of_today now in
    let to = end_of_today now in
    record {
      summary = get_sales_summary created_at shop_id from to orders;
      top_products = get_top_products created_at shop_id from to 5 orders;
      payment_methods = get_payment_method_breakdown created_at shop_id from to orders;
      low_stock_alerts = length (get_low_stock_products shop_id w);
    }

-- From the second day of 1970 on: the period of the overview is the 24 hours of the Tashkent day that contains the present moment, and it always lies in two days of the trend, which divides by UTC days.
pub today_spans_two_utc_days :
    (now : ℕ)
    → 86_400_000 ≤ now
    → (start_of_today now ≤ now)
      × (now ≤ end_of_today now)
      × (end_of_today now + 1 ≡ start_of_today now + 86_400_000)
      × (utc_day (end_of_today now) ≡ utc_day (start_of_today now) + 1)
unfolding start_of_today end_of_today
today_spans_two_utc_days now late = omega arith
