-- ===== src/Debts/Listing.antt =====
-- `findAll` of debts.service.ts; `sort` is ORDER BY createdAt DESC.
use salepoint_backend.Prelude.{ℕ, ◌==◌, Bool, true, false, ◌&&◌, Option, none, some, List}
use salepoint_backend.Prelude.Table.{find_by_id}
use salepoint_backend.Pagination.{PaginationQuery, PaginatedResult, page_of, asked}
use salepoint_backend.Entities.{Order, order_key, Debt, DebtStatus}
use salepoint_backend.Database.{scoped}

pub record DebtQuery : Type 0 where
  pub page : PaginationQuery
  pub customer_id : Option ℕ
  pub status : Option DebtStatus
  pub cashier_id : Option ℕ
  pub shift_id : Option ℕ

abbrev same_debt_status : DebtStatus → DebtStatus → Bool
same_debt_status DebtStatus.pending DebtStatus.pending = true
same_debt_status DebtStatus.partial DebtStatus.partial = true
same_debt_status DebtStatus.paid DebtStatus.paid = true
same_debt_status _ _ = false

abbrev is_key : Option ℕ → ℕ → Bool
is_key none i = false
is_key (some j) i = j == i

-- `order.shiftId` of the LEFT JOIN
abbrev shift_of_order : Option Order → Option ℕ
shift_of_order none = none
shift_of_order (some o) = o.shift_id

unfoldable pub is_asked : List Order → Option ℕ → DebtQuery → Debt → Bool
is_asked orders shop q d =
    scoped shop d.shop_id
    && asked (λ c. is_key d.customer_id c) q.customer_id
    && asked (λ st. same_debt_status d.status st) q.status
    && asked (λ c. d.cashier_id == c) q.cashier_id
    && asked (λ s. is_key (shift_of_order (find_by_id order_key d.order_id orders)) s) q.shift_id

unfoldable pub find_all :
    (List Debt → List Debt) → List Order → Option ℕ → DebtQuery → List Debt → PaginatedResult Debt
unfolding is_asked page_of
find_all sort orders shop q = page_of sort (is_asked orders shop q) q.page
