-- ===== src/Debts/Summary.antt =====
-- `getDebtorsSummary` of modules/debts/debts.service.ts.
use salepoint_backend.Prelude.{
  ℕ, Bool, ◌&&◌, Option, none, some, List, [], ◌∷◌, map, String, ◌==◌, min, take, drop, filter_by,
}
use salepoint_backend.Prelude.Table.{find_by_id}
use salepoint_backend.Pagination.{PaginationQuery, PaginatedResult, paginate, skip}
use salepoint_backend.Entities.{Debt, is_unpaid, Customer, customer_key}
use salepoint_backend.Database.{Db}
use salepoint_backend.Reports.{Group, group_by, order_by, by_sum_descending}

pub record DebtorSummary : Type 0 where
  pub customer_id : ℕ
  pub customer_name : String
  pub phone : Option String
  pub total_remaining : ℕ
  pub debt_count : ℕ
  pub oldest_debt_at : ℕ

-- A debt joined with its customer.
pub record Joined : Type 0 where
  pub debt : Debt
  pub customer : Customer

abbrev join_row : Debt → Option Customer → List Joined → List Joined
join_row d none rest = rest
join_row d (some c) rest = record { debt = d; customer = c } ∷ rest

abbrev pub customer_of_debt : Option ℕ → List Customer → Option Customer
customer_of_debt none cs = none
customer_of_debt (some i) cs = find_by_id customer_key i cs

-- `innerJoin('d.customer', 'customer')`
unfoldable pub join : List Customer → List Debt → List Joined
join cs [] = []
join cs (d ∷ ds) = join_row d (customer_of_debt d.customer_id cs) (join cs ds)

-- The conditions, with `d.status IN (PENDING, PARTIAL)`; `matches` is `customer.name ILIKE :search`, true of every name without a search.
abbrev pub is_summed : (String → Bool) → ℕ → Joined → Bool
is_summed matches shop_id j =
    (j.debt.shop_id == shop_id) && is_unpaid j.debt.status && matches j.customer.name

-- The groups: a customer's name and phone go with its key.
unfoldable pub debtor_groups : (String → Bool) → ℕ → Db → List (Group ℕ)
unfolding join group_by order_by
debtor_groups matches shop_id db = order_by by_sum_descending (
    group_by ◌==◌ (λ j. j.customer.id) (λ j. j.debt.remaining_amount)
      (filter_by (is_summed matches shop_id) (join db.customers db.debts)))

abbrev name_of : Option Customer → String
name_of none = ""
name_of (some c) = c.name

abbrev phone_of : Option Customer → Option String
phone_of none = none
phone_of (some c) = c.phone

-- `MIN(d.created_at)` of a customer, over the times of the debts by their keys.
abbrev oldest : (ℕ → ℕ) → ℕ → List Joined → ℕ
oldest created_at i [] = 0
oldest created_at i (j ∷ []) = created_at j.debt.id
oldest created_at i (j ∷ k ∷ js) = min (created_at j.debt.id) (oldest created_at i (k ∷ js))

unfoldable pub debtor_row : (ℕ → ℕ) → (String → Bool) → ℕ → Db → Group ℕ → DebtorSummary
unfolding join
debtor_row created_at matches shop_id db g =
    let c = find_by_id customer_key g.key db.customers in
    record {
      customer_id = g.key;
      customer_name = name_of c;
      phone = phone_of c;
      total_remaining = g.sum;
      debt_count = g.count;
      oldest_debt_at = oldest created_at g.key (
          filter_by (λ j. (j.customer.id == g.key) && is_summed matches shop_id j)
            (join db.customers db.debts));
    }

-- `total` is what `qb.getCount()` answers.
unfoldable pub get_debtors_summary :
    (ℕ → ℕ) → (String → Bool) → ℕ → ℕ → PaginationQuery → Db → PaginatedResult DebtorSummary
unfolding debtor_groups debtor_row
get_debtors_summary created_at matches total shop_id q db =
    paginate
      (map (debtor_row created_at matches shop_id db)
        (take q.limit (drop (skip q) (debtor_groups matches shop_id db))))
      total q
