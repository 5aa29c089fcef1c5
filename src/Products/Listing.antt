-- ===== src/Products/Listing.antt =====
-- `findAll` and `findByBarcode` of products.service.ts, which read only.
use text.Mathlib.Text.{◌==◌ as str_eq}
use salepoint_backend.Prelude.{
  ℕ, ◌==◌, Bool, true, false, not, ◌&&◌, ◌||◌, Option, none, some, List, String, map, find_first,
  if◌then◌else◌,
}
use salepoint_backend.Exec.{Result, ok, err, product_not_found}
use salepoint_backend.Pagination.{PaginationQuery, PaginatedResult, page_of}
use salepoint_backend.Products.Defs.{Product, in_shop}
use salepoint_backend.Products.Images.{with_image_url}

pub record ProductQuery : Type 0 where
  pub page : PaginationQuery
  pub category_id : Option ℕ
  pub active : Option Bool

-- `if (query.search)`: an empty text is no search.
abbrev pub search_text : Option String → Option String
search_text none = none
search_text (some s) = if str_eq s "" then none else some s

abbrev in_category : Option ℕ → Option ℕ → Bool
in_category none c = true
in_category (some i) none = false
in_category (some i) (some c) = c == i

abbrev in_state : Option Bool → Bool → Bool
in_state none b = true
in_state (some true) b = b
in_state (some false) b = not b

module _ (ilike : String → String → Bool) where
  -- `ILIKE '%s%'` of a column; it does not hold of NULL.
  abbrev pub barcode_like : Option String → String → Bool
  barcode_like none s = false
  barcode_like (some b) s = ilike b s

  -- The conditions in the order of the calls. TypeORM joins them by AND as they stand, without
  -- parentheses, and AND binds before OR: the shop stands with the name only, and the category
  -- and the state stand with the barcode only.
  unfoldable pub holds_for : Option String → Option ℕ → ProductQuery → Product → Bool
  holds_for none shop q p =
      in_shop shop p.shop_id
      && in_category q.category_id p.category_id
      && in_state q.active p.is_active
  holds_for (some s) shop q p =
      (in_shop shop p.shop_id && ilike p.name s)
      || ilike p.sku s
      || (barcode_like p.barcode s
          && in_category q.category_id p.category_id
          && in_state q.active p.is_active)

  -- A query does not see the rows that are soft-deleted: that condition is put around the others.
  unfoldable pub is_matched : Option ℕ → ProductQuery → Product → Bool
  unfolding holds_for
  is_matched shop q p = not p.deleted && holds_for (search_text q.page.search) shop q p

  -- `sort` is ORDER BY p.name ASC, and `cdn` the public address of the bucket.
  unfoldable pub find_all :
      (List Product → List Product)
      → String
      → Option ℕ
      → ProductQuery
      → List Product
      → PaginatedResult Product
  unfolding is_matched page_of
  find_all sort cdn shop q rows =
      let page = page_of sort (is_matched shop q) q.page rows in
      record page { items = map (with_image_url cdn) page.items }

-- `where: { barcode, shopId }` over the rows that are not soft-deleted.
abbrev has_barcode : String → ℕ → Product → Bool
has_barcode code shop p = barcode_like str_eq p.barcode code && p.shop_id == shop && not p.deleted

abbrev found_or : String → Option Product → Result Product
found_or cdn none = err product_not_found
found_or cdn (some p) = ok (with_image_url cdn p)

unfoldable pub find_by_barcode : String → String → ℕ → List Product → Result Product
find_by_barcode cdn code shop rows = found_or cdn (find_first (has_barcode code shop) rows)
