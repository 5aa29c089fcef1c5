-- ===== src/Customers/Listing.antt =====
-- `findAll` of customers.service.ts; `sort` is ORDER BY c.name ASC.
use salepoint_backend.Prelude.{
  ℕ, ◌≤◌, ◌==◌, ◌≡◌, Bool, true, false, not, ◌&&◌, ◌||◌, Option, none, some, List, String, count_by,
  count_by_mono, arith,
}
use salepoint_backend.Pagination.{PaginationQuery, PaginatedResult, page_of, paginate}
use salepoint_backend.Products.{search_text}
use salepoint_backend.Entities.{Customer}
use salepoint_backend.Database.{scoped}

module _ (ilike : String → String → Bool) where
  -- `ILIKE '%s%'` of a column; it does not hold of NULL.
  abbrev pub phone_like : Option String → String → Bool
  phone_like none s = false
  phone_like (some phone) s = ilike phone s

  -- The conditions as TypeORM joins them, without parentheses: the shop stands with the name only.
  abbrev pub is_sought : Option String → Option ℕ → Customer → Bool
  is_sought none shop c = scoped shop c.shop_id
  is_sought (some s) shop c = (scoped shop c.shop_id && ilike c.name s) || phone_like c.phone s

  unfoldable pub find_all :
      (List Customer → List Customer)
      → Option ℕ
      → PaginationQuery
      → List Customer
      → PaginatedResult Customer
  unfolding page_of
  find_all sort shop q = page_of sort (is_sought (search_text q.search) shop) q

  sought_foreign :
      (shop : ℕ) (q : PaginationQuery) (s : String) (c : Customer)
      → search_text q.search ≡ some s
      → (not (c.shop_id == shop) && phone_like c.phone s) ≡ true
      → is_sought (search_text q.search) (some shop) c ≡ true
  sought_foreign shop q s c searched matched = rw searched (ground (arith, matched))

  -- With a search text, the list of customers that a shop is shown counts every customer of other shops whose phone number matches the text.
  find_all_shows_foreign_customers :
      (sort : List Customer → List Customer) (shop : ℕ) (q : PaginationQuery) (rows : List Customer)
      (s : String)
      → search_text q.search ≡ some s
      → count_by (λ c. not (c.shop_id == shop) && phone_like c.phone s) rows
        ≤ (find_all sort (some shop) q rows).info.total
  unfolding find_all page_of paginate
  find_all_shows_foreign_customers sort shop q rows s searched =
      count_by_mono (λ c. not (c.shop_id == shop) && phone_like c.phone s)
        (is_sought (search_text q.search) (some shop)) rows
        (λ c. sought_foreign shop q s c searched)
