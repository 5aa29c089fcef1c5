-- ===== src/Reports/Totals.antt =====
-- How the reports of one period agree: reports.service.ts.
use salepoint_backend.Prelude.{
  ℕ, ◌+◌, ◌≡◌, refl, ◌∙◌, inl, inr, List, [], ◌∷◌, arith, ◌==◌, sum_by, All, Bool-cases,
}
use salepoint_backend.Entities.{Order}
use salepoint_backend.Reports.Defs.{group_by, by_sum_descending}
use salepoint_backend.Reports.Service.{
  sales, is_sale, utc_day, utc_hour, start_of_day, end_of_day, get_sales_summary, get_sales_by_day,
  get_sales_by_hour, get_sales_by_cashier, get_payment_method_breakdown,
}
use salepoint_backend.Reports.Grouping.{
  IsAscending, sum-group_by, count-group_by, sum_by-order_by, All-order_by, group_by-IsDistinct,
}
use salepoint_backend.Reports.Ordered.{
  in_order, order_by-IsAscending, group_by-AllExact, sum_of_key,
}

module _ (created_at : ℕ → ℕ) (shop from to : ℕ) (orders : List Order) where
  abbrev day_of : Order → ℕ
  day_of o = utc_day (created_at o.id)

  -- The report by day has one row for each UTC day, in ascending order; each row has the total of the sales of its day, and the rows together have the revenue and the number of orders of the summary of the same period.
  pub get_sales_by_day-IsExact :
      let rows = get_sales_by_day created_at shop from to orders in
      let all = get_sales_summary created_at shop from to orders in
      IsAscending rows
      × All
          (λ g.
            g.sum ≡ sum_of_key day_of (λ o. o.total) (sales created_at shop from to orders) g.key)
          rows
      × (sum_by (λ g. g.sum) rows ≡ all.total_revenue)
      × (sum_by (λ g. g.count) rows ≡ all.total_orders)
  unfolding get_sales_by_day get_sales_summary
  get_sales_by_day-IsExact =
      let found = sales created_at shop from to orders in
      let groups = group_by ◌==◌ day_of (λ o. o.total) found in
      (
        order_by-IsAscending groups (group_by-IsDistinct day_of (λ o. o.total) found),
        All-order_by in_order (λ g. g.sum ≡ sum_of_key day_of (λ o. o.total) found g.key) groups
            (group_by-AllExact day_of (λ o. o.total) found),
        sum_by-order_by in_order (λ g. g.sum) groups
            ∙ sum-group_by ◌==◌ day_of (λ o. o.total) found,
        sum_by-order_by in_order (λ g. g.count) groups
            ∙ count-group_by ◌==◌ day_of (λ o. o.total) found,
      )

  cash_card_debt :
      (os : List Order)
      → All (λ o. o.paid_by_cash + o.paid_by_card + o.not_paid ≡ o.total) os
      → sum_by (λ (o : Order). o.paid_by_cash) (sales created_at shop from to os)
          + sum_by (λ (o : Order). o.paid_by_card) (sales created_at shop from to os)
          + sum_by (λ (o : Order). o.not_paid) (sales created_at shop from to os)
        ≡ sum_by (λ (o : Order). o.total) (sales created_at shop from to os)
  cash_card_debt [] h = refl
  cash_card_debt (o ∷ os) h = elim (Bool-cases (is_sale created_at shop from to o)) [
    | inl keep ↦ rw keep (omega (arith, cash_card_debt os h.1, h.0))
    | inr drop ↦ rw drop (cash_card_debt os h.1)
  ]

  -- Where every order splits its total into cash, card and debt, the cash and the card of the breakdown are the revenue of the summary less what the same sales left unpaid when they were made.
  pub get_payment_method_breakdown-eq-summary :
      All (λ o. o.paid_by_cash + o.paid_by_card + o.not_paid ≡ o.total) orders
      → let b = get_payment_method_breakdown created_at shop from to orders in
        let all = get_sales_summary created_at shop from to orders in
        b.cash + b.card + sum_by (λ (o : Order). o.not_paid) (sales created_at shop from to orders)
        ≡ all.total_revenue
  unfolding get_payment_method_breakdown get_sales_summary
  get_payment_method_breakdown-eq-summary = cash_card_debt orders

  -- The report by cashier divides the revenue and the orders of the summary among the cashiers.
  pub get_sales_by_cashier-total :
      let rows = get_sales_by_cashier created_at shop from to orders in
      let all = get_sales_summary created_at shop from to orders in
      (sum_by (λ g. g.sum) rows ≡ all.total_revenue)
      × (sum_by (λ g. g.count) rows ≡ all.total_orders)
  unfolding get_sales_by_cashier get_sales_summary
  get_sales_by_cashier-total =
      let found = sales created_at shop from to orders in
      let groups = group_by ◌==◌ (λ (o : Order). o.cashier_id) (λ o. o.total) found in
      (
        sum_by-order_by by_sum_descending (λ g. g.sum) groups
            ∙ sum-group_by ◌==◌ (λ (o : Order). o.cashier_id) (λ o. o.total) found,
        sum_by-order_by by_sum_descending (λ g. g.count) groups
            ∙ count-group_by ◌==◌ (λ (o : Order). o.cashier_id) (λ o. o.total) found,
      )

-- The report by hour has the revenue and the orders of the summary of that day of the server's clock.
pub get_sales_by_hour-total :
    (created_at : ℕ → ℕ) (offset shop date : ℕ) (orders : List Order)
    → let rows = get_sales_by_hour created_at offset shop date orders in
      let all =
        get_sales_summary created_at shop
          (start_of_day offset date)
          (end_of_day offset date)
          orders in
      (sum_by (λ g. g.sum) rows ≡ all.total_revenue)
      × (sum_by (λ g. g.count) rows ≡ all.total_orders)
unfolding get_sales_by_hour get_sales_summary
get_sales_by_hour-total created_at offset shop date orders =
    let found = sales created_at shop (start_of_day offset date) (end_of_day offset date) orders in
    let hour_of = λ (o : Order). utc_hour (created_at o.id) in
    let groups = group_by ◌==◌ hour_of (λ o. o.total) found in
    (
      sum_by-order_by in_order (λ g. g.sum) groups ∙ sum-group_by ◌==◌ hour_of (λ o. o.total) found,
      sum_by-order_by in_order (λ g. g.count) groups
          ∙ count-group_by ◌==◌ hour_of (λ o. o.total) found,
    )
