-- ===== src/Products/Skus.antt =====
-- The stock keeping units of a shop: `create` and `update` of products.service.ts.
use text.Mathlib.Text.{◌==◌ as str_eq}
use text.Mathlib.TextEquality.{eq_iff}
use salepoint_backend.Prelude.{
  ℕ, ◌≡◌, refl, subst, ◌&&◌, inl, inr, Bool, true, false, none, some, List, [], ◌∷◌, String, arith,
  ◌==◌, Bool-cases, any_by,
}
use salepoint_backend.Prelude.Table.{IsKeyed, find_by_id, save}
use salepoint_backend.Exec.{Result-cases}
use salepoint_backend.Products.Defs.{Product, Catalog, product_key}
use salepoint_backend.Products.Service.{
  find_raw_by_id, save_checked, same_sku, clashes, update, UpdateProductDto, assign,
}
use salepoint_backend.Products.Coherence.{find_raw_by_id-products}

-- No two rows of one shop have one SKU; the rows that are soft-deleted count too.
abbrev pub HasUniqueSkus : List Product → Type 0
HasUniqueSkus [] = Unit
HasUniqueSkus (x ∷ xs) = (any_by (same_sku x) xs ≡ false) × HasUniqueSkus xs

same_sku_sym : (p q : Product) → same_sku p q ≡ same_sku q p
same_sku_sym p q = ground (arith, eq_iff p.sku q.sku, eq_iff q.sku p.sku)

-- A row that no other row clashes with, over rows with other keys.
apart-clashes :
    (p : Product) (xs : List Product)
    → find_by_id product_key p.id xs ≡ none
    → clashes p xs ≡ false
    → any_by (same_sku p) xs ≡ false
apart-clashes p [] new free = refl
apart-clashes p (x ∷ xs) new free = ground (arith, same_sku_sym p x, apart-clashes p xs)

any-save :
    (x p : Product) (xs : List Product)
    → any_by (same_sku x) xs ≡ false
    → same_sku x p ≡ false
    → any_by (same_sku x) (save product_key p xs) ≡ false
any-save x p [] none_of free = rw free
any-save x p (y ∷ ys) none_of free = elim (Bool-cases (product_key y == product_key p)) [
  | inl same ↦ rw (same, free) (ground (arith, none_of))
  | inr other ↦ rw other (
      let rest : any_by (same_sku x) (save product_key p ys) ≡ false =
        any-save x p ys (ground (arith, none_of)) free in
      let head : same_sku x y ≡ false = ground (arith, none_of) in rw (head, rest))
]

save-HasUniqueSkus :
    (p : Product) (xs : List Product)
    → IsKeyed product_key xs
    → clashes p xs ≡ false
    → HasUniqueSkus xs
    → HasUniqueSkus (save product_key p xs)
save-HasUniqueSkus p [] keyed free h = (refl, tt)
save-HasUniqueSkus p (x ∷ xs) keyed free h = elim (Bool-cases (product_key x == product_key p)) [
  | inl same ↦
      let key : x.id ≡ p.id = ground arith in
      rw same (
        apart-clashes p xs (subst (λ k. find_by_id product_key k xs ≡ none) key keyed.0)
            (rw same at free),
        h.1,
      )
  | inr other ↦
      let free' : same_sku x p && true ≡ false = ground (arith, free) in
      let rest : clashes p xs ≡ false = ground (arith, free) in
      rw other
        (any-save x p xs h.0 (ground (arith, free')), save-HasUniqueSkus p xs keyed.1 rest h.1)
]

save_checked-HasUniqueSkus :
    (p : Product) (c : Catalog)
    → IsKeyed product_key c.products
    → HasUniqueSkus c.products
    → HasUniqueSkus (save_checked p c).1.products
unfolding save_checked
save_checked-HasUniqueSkus p c keyed h = elim (Bool-cases (clashes p c.products)) [
  | inl taken ↦ rw taken h
  | inr free ↦ rw free (save-HasUniqueSkus p c.products keyed free h)
]

-- An update of a product, whatever it answers, keeps the SKUs of every shop unique, if the product keys of the table are unique.
update-HasUniqueSkus :
    (i shop : ℕ) (dto : UpdateProductDto) (c : Catalog)
    → IsKeyed product_key c.products
    → HasUniqueSkus c.products
    → HasUniqueSkus (update i dto shop c).1.products
unfolding update
update-HasUniqueSkus i shop dto c keyed h =
    let c' = (find_raw_by_id i (some shop) c).1 in
    let same = find_raw_by_id-products i shop c in
    let keyed' : IsKeyed product_key c'.products = rw same keyed in
    let h' : HasUniqueSkus c'.products = rw same h in
    elim (Result-cases (find_raw_by_id i (some shop) c).0) [
      | inr (e, failed) ↦ rw failed h'
      | inl (p, found) ↦ rw found (elim (Bool-cases (clashes (assign dto p) c'.products)) [
        | inl taken ↦ rw taken h'
        | inr free ↦ rw free (save-HasUniqueSkus (assign dto p) c'.products keyed' free h')
      ])
    ]

-- A row of the shop with the SKU, soft-deleted or not.
abbrev pub is_taken : ℕ → String → List Product → Bool
is_taken shop sku = any_by (λ q. q.shop_id == shop && str_eq q.sku sku)
