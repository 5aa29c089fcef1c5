-- ===== src/Shifts/Listing.antt =====
-- `findByCashier` and `findAll` of shifts.service.ts; `sort` is ORDER BY openedAt DESC.
use salepoint_backend.Prelude.{
  ℕ, ◌==◌, ◌≡◌, ◌&&◌, Option, List, filter_by, take, All, All-take, All-mono, filter_by-All, arith,
}
use salepoint_backend.Pagination.{KeepsRows}
use salepoint_backend.Entities.{Shift}
use salepoint_backend.Database.{scoped}

unfoldable pub find_by_cashier : (List Shift → List Shift) → ℕ → ℕ → List Shift → List Shift
find_by_cashier sort cashier shop rows =
    take 30 (sort (filter_by (λ s. s.shop_id == shop && s.cashier_id == cashier) rows))

unfoldable pub find_all : (List Shift → List Shift) → Option ℕ → List Shift → List Shift
find_all sort shop rows = take 50 (sort (filter_by (λ s. scoped shop s.shop_id) rows))

-- Where sorting drops and adds no row: the shifts that a cashier is shown are the cashier's own, in the shop.
find_by_cashier-AllOwn :
    (sort : List Shift → List Shift) (cashier shop : ℕ) (rows : List Shift)
    → KeepsRows sort
    → All
        (λ (s : Shift). (s.shop_id ≡ shop) × (s.cashier_id ≡ cashier))
        (find_by_cashier sort cashier shop rows)
unfolding find_by_cashier
find_by_cashier-AllOwn sort cashier shop rows keeps =
    All-take (λ (s : Shift). (s.shop_id ≡ shop) × (s.cashier_id ≡ cashier)) 30 _
      (keeps (λ (s : Shift). (s.shop_id ≡ shop) × (s.cashier_id ≡ cashier)) _
        (All-mono (λ s h. (ground (arith, h), ground (arith, h))) _
          (filter_by-All (λ (s : Shift). s.shop_id == shop && s.cashier_id == cashier) rows)))
