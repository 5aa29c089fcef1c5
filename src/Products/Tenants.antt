-- ===== src/Products/Tenants.antt =====
-- Which shops' products `findAll` of products.service.ts shows.
use salepoint_backend.Prelude.{
  ℕ, ◌≤◌, ◌==◌, ◌≡◌, Bool, true, false, not, ◌&&◌, none, some, List, String, count_by,
  count_by_mono, All, All-map, arith,
}
use salepoint_backend.Pagination.{page_of, page_of-All, paginate, KeepsRows}
use salepoint_backend.Products.{
  Product, ProductQuery, search_text, holds_for, is_matched, find_all, with_image_url,
}

abbrev pub IsOwn : ℕ → Product → Type 0
IsOwn shop p = (p.shop_id ≡ shop) × (p.deleted ≡ false)

is_matched-IsOwn :
    (ilike : String → String → Bool) (shop : ℕ) (q : ProductQuery) (p : Product)
    → search_text q.page.search ≡ none
    → is_matched ilike (some shop) q p ≡ true
    → IsOwn shop p
unfolding is_matched holds_for
is_matched-IsOwn ilike shop q p blank found =
    let test = rw blank at found in (ground (arith, test), ground (arith, test))

-- Where sorting drops and adds no row: without a search text, a page of products shows only products of the caller's shop that are not removed.
pub find_all-AllOwn :
    (ilike : String → String → Bool) (sort : List Product → List Product) (cdn : String) (shop : ℕ)
    (q : ProductQuery) (rows : List Product)
    → KeepsRows sort
    → search_text q.page.search ≡ none
    → All (IsOwn shop) (find_all ilike sort cdn (some shop) q rows).items
unfolding find_all with_image_url
find_all-AllOwn ilike sort cdn shop q rows keeps blank =
    All-map (IsOwn shop) (IsOwn shop) (with_image_url cdn) _ (λ p h. h)
      (page_of-All (IsOwn shop) sort (is_matched ilike (some shop) q) q.page rows keeps
        (λ p. is_matched-IsOwn ilike shop q p blank))

is_matched_foreign :
    (ilike : String → String → Bool) (shop : ℕ) (q : ProductQuery) (s : String) (p : Product)
    → search_text q.page.search ≡ some s
    → (not (p.shop_id == shop) && not p.deleted && ilike p.sku s) ≡ true
    → is_matched ilike (some shop) q p ≡ true
unfolding is_matched holds_for
is_matched_foreign ilike shop q s p searched matched = rw searched (ground (arith, matched))

-- With a search text, the list of products that a shop is shown, whatever category and state it asks for, counts every product of other shops, unless it is removed, whose SKU matches the text.
pub find_all_shows_foreign :
    (ilike : String → String → Bool) (sort : List Product → List Product) (cdn : String) (shop : ℕ)
    (q : ProductQuery) (rows : List Product) (s : String)
    → search_text q.page.search ≡ some s
    → count_by (λ p. not (p.shop_id == shop) && not p.deleted && ilike p.sku s) rows
      ≤ (find_all ilike sort cdn (some shop) q rows).info.total
unfolding find_all page_of paginate
find_all_shows_foreign ilike sort cdn shop q rows s searched =
    count_by_mono (λ p. not (p.shop_id == shop) && not p.deleted && ilike p.sku s)
      (is_matched ilike (some shop) q) rows (λ p. is_matched_foreign ilike shop q s p searched)
