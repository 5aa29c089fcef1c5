-- ===== src/Tests/ReportCases.antt =====
-- The theorems of the reports, receipts and customers at sample data.
use salepoint_backend.Prelude.{ℕ, ◌*◌, ◌≡◌, ◌≢◌, refl, ◌⊎◌, none, some, List, [], ◌∷◌, All, sum_by}
use salepoint_backend.Exec.{ok, err, customer_not_found}
use salepoint_backend.Products.{piece}
use salepoint_backend.Entities.{Order, OrderStatus, Customer}
use salepoint_backend.Database.{Db}
use salepoint_backend.Printer.{Relations}
use salepoint_backend.Reports.{get_sales_by_day, get_sales_summary, sales, utc_day}
use salepoint_backend.Reports.Grouping.{IsAscending}
use salepoint_backend.Reports.Ordered.{sum_of_key}
use salepoint_backend.Reports.Totals.{get_sales_by_day-IsExact}
use salepoint_backend.Customers.{UpdateCustomerDto, update, assign, customer_in}
use salepoint_backend.Customers.Own.{update_outcome}
use salepoint_backend.Tests.Samples.{order_in, db_with}
use salepoint_backend.Tests.SmsCases.{db as db_of_buyer}

abbrev made_at : ℕ → ℕ
made_at i = i * 86_400_000

abbrev two_orders : List Order
two_orders = order_in OrderStatus.paid ∷ record (order_in OrderStatus.paid) { id = 8 } ∷ []

get_sales_by_day-IsExact_example :
    let rows = get_sales_by_day made_at 1 0 864_000_000 two_orders in
    let all = get_sales_summary made_at 1 0 864_000_000 two_orders in
    IsAscending rows
    × All
        (λ g.
          g.sum
          ≡ sum_of_key
              (λ (o : Order). utc_day (made_at o.id))
              (λ o. o.total)
              (sales made_at 1 0 864_000_000 two_orders)
              g.key)
        rows
    × (sum_by (λ g. g.sum) rows ≡ all.total_revenue)
    × (sum_by (λ g. g.count) rows ≡ all.total_orders)
get_sales_by_day-IsExact_example = get_sales_by_day-IsExact made_at 1 0 864_000_000 two_orders

-- The older order comes first.
two_days :
    get_sales_by_day made_at 1 0 864_000_000 two_orders
    ≡ record { key = 8; sum = 660; count = 1 } ∷ record { key = 9; sum = 660; count = 1 } ∷ []
unfolding get_sales_by_day
two_days = refl

abbrev related : Order → Relations
related o = record { unit_of = λ i. some piece; cashier_name = none; customer_name = some "Ali" }

abbrev db : Db
db = db_with OrderStatus.confirmed

abbrev new_name : UpdateCustomerDto
new_name = record {
  name = some "Vali";
  phone = none;
  default_discount_type = none;
  default_discount_value = none;
  notes = none;
}

update_outcome_example :
    let (r, t) = update 5 new_name 1 db_of_buyer in
    ((customer_in 5 (some 1) db_of_buyer ≡ none) × (r ≡ err customer_not_found) × (t ≡ db_of_buyer))
    ⊎ ((c : Customer) × (customer_in 5 (some 1) db_of_buyer ≡ some c)
        × (r ≡ ok (assign new_name c))
        × (customer_in 5 (some 1) t ≡ some (assign new_name c))
        × ((j other : ℕ)
            → other ≢ 1
            → customer_in j (some other) t ≡ customer_in j (some other) db_of_buyer))
update_outcome_example = update_outcome 5 1 new_name db_of_buyer (refl, tt)
