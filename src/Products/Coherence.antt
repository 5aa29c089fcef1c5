-- ===== src/Products/Coherence.antt =====
-- What the cache of ProductsService may hold.
use salepoint_backend.Prelude.{
  ℕ, ◌≡◌, ◌≢◌, refl, ap, sym, subst, ◌∙◌, true, false, Option, none, some, List, [], ◌∷◌, ◌==◌,
  if◌then◌else◌, find_first, inl, inr, Bool-cases, Option-cases, arith, ==→eq, ==_refl,
  find_first-holds,
}
use salepoint_backend.Prelude.Table.{
  find_by_id, IsKeyed, find_first-save_self, find_first-save_other, find_by_id-find_first,
}
use salepoint_backend.Exec.{Result, Result-cases, ok, err, product_not_found}
use salepoint_backend.Products.Defs.{
  Product, Catalog, CacheEntry, product_of, cached_of, cache_set, cache_del, has_key, without_key,
  same_shop, is_product, product_key,
}
use salepoint_backend.Products.Service.{
  find_raw_by_id, update, UpdateProductDto, assign, save_product, clashes,
}

-- A hit of the cache is what the database would answer.
pub record IsCoherent (shop : ℕ) (c : Catalog) : Type 0 where
  pub fresh :
      (i : ℕ) (p : Product)
      → cached_of i (some shop) c ≡ some p
      → product_of i (some shop) c ≡ some p

same_shop_iff : (a b : Option ℕ) → same_shop a b ≡ true → a ≡ b
same_shop_iff none none h = refl
same_shop_iff (some a) (some b) h = ground arith
same_shop_iff none (some b) h = cc
same_shop_iff (some a) none h = cc

-- `cache.del` of one key, read under another.
without_key_self :
    (shop : Option ℕ) (i : ℕ) (es : List CacheEntry)
    → find_first (has_key shop i) (without_key shop i es) ≡ none
without_key_self shop i [] = refl
without_key_self shop i (e ∷ es) = ground (arith, without_key_self shop i es)

without_key-other :
    (shop : Option ℕ) (i j : ℕ) (es : List CacheEntry)
    → i ≢ j
    → find_first (has_key shop j) (without_key shop i es) ≡ find_first (has_key shop j) es
without_key-other shop i j [] other = refl
without_key-other shop i j (e ∷ es) other = ground (arith, without_key-other shop i j es other)

none≢some {ℓ} : {A : Type ℓ} {a : A} → none ≡ some a → ⊥
none≢some e = cc

abbrev pub answer : Option Product → Result Product
answer none = err product_not_found
answer (some p) = ok p

-- From a cache that agrees with the database for the shop, the lookup of a product of the shop answers what the database holds, on a hit and on a miss, or that there is no such product.
pub find_raw_by_id-reads :
    (i shop : ℕ) (c : Catalog)
    → IsCoherent shop c
    → (find_raw_by_id i (some shop) c).0 ≡ answer (product_of i (some shop) c)
unfolding find_raw_by_id
find_raw_by_id-reads i shop c coherent = elim (Option-cases (cached_of i (some shop) c)) [
  | inr (p, hit) ↦ rw hit (rw (coherent.fresh i p hit))
  | inl miss ↦
      rw miss
        (elim (Option-cases (product_of i (some shop) c)) [ inl e ↦ rw e | inr (p, e) ↦ rw e ])
]

cached-cache_set :
    (shop i j : ℕ) (p : Product) (c : Catalog)
    → cached_of j (some shop) (cache_set (some shop) i p c)
      ≡ (if i == j then some p else cached_of j (some shop) c)
cached-cache_set shop i j p c =
    ground (arith, without_key-other (some shop) i j c.cache, ==_refl shop)

pub cached-cache_del :
    (shop i j : ℕ) (c : Catalog)
    → cached_of j (some shop) (cache_del (some shop) i c)
      ≡ (if i == j then none else cached_of j (some shop) c)
cached-cache_del shop i j c = elim (Bool-cases (i == j)) [
  | inl same ↦ rw same (
      subst (λ k. cached_of k (some shop) (cache_del (some shop) i c) ≡ none) (==→eq i j same)
        (rw (without_key_self (some shop) i c.cache, cached_of)))
  | inr other ↦ ground (arith, without_key-other (some shop) i j c.cache)
]

-- A lookup, by a hit or by a miss, keeps the cache in agreement with the database.
pub find_raw_by_id-IsCoherent :
    (i shop : ℕ) (c : Catalog)
    → IsCoherent shop c
    → IsCoherent shop (find_raw_by_id i (some shop) c).1
unfolding find_raw_by_id
find_raw_by_id-IsCoherent i shop c coherent = elim (Option-cases (cached_of i (some shop) c)) [
  | inr (p, hit) ↦ rw hit coherent
  | inl miss ↦ rw miss (elim (Option-cases (product_of i (some shop) c)) [
    | inl e ↦ rw e coherent
    | inr (p, e) ↦ rw e (record {
      fresh = λ j q h.
          let h' = cached-cache_set shop i j p c in
          elim (Bool-cases (i == j)) [
            | inl same ↦
                subst (λ k. product_of k (some shop) c ≡ some q) (==→eq i j same)
                  (e ∙ sym (rw same at h') ∙ h)
            | inr other ↦ coherent.fresh j q (sym (rw other at h') ∙ h)
          ];
    })
  ])
]

module _ (shop i : ℕ) (p : Product) (c : Catalog) (mine : p.id ≡ i) where
  -- The row of product i alone is written, and its cache entry of the shop is dropped.
  written-IsCoherent :
      {old : Product}
      → find_by_id product_key i c.products ≡ some old
      → IsCoherent shop c
      → IsCoherent shop (cache_del (some shop) i (save_product p c))
  written-IsCoherent {old} row coherent = record {
    fresh = λ j q h.
        let h' = cached-cache_del shop i j (save_product p c) in
        elim (Bool-cases (i == j)) [
          | inl same ↦ absurd (none≢some (sym (rw same at h') ∙ h))
          | inr other ↦
              let own : old.id ≡ i =
                ==→eq old.id i (find_first-holds (λ r. product_key r == i) c.products old row) in
              rw
                (find_first-save_other product_key (is_product j (some shop)) p old c.products
                  (rw mine row) (ground arith) (ground arith))
                (coherent.fresh j q (sym (rw other at h') ∙ h))
        ];
  }

pub find_raw_by_id-products :
    (i shop : ℕ) (c : Catalog) → (find_raw_by_id i (some shop) c).1.products ≡ c.products
unfolding find_raw_by_id
find_raw_by_id-products i shop c = elim (Option-cases (cached_of i (some shop) c)) [
  | inr (p, hit) ↦ rw hit
  | inl miss ↦
      rw miss
        (elim (Option-cases (product_of i (some shop) c)) [ inl e ↦ rw e | inr (p, e) ↦ rw e ])
]

answer-ok : (o : Option Product) (p : Product) → answer o ≡ ok p → o ≡ some p
answer-ok none p e = cc
answer-ok (some q) p e = cc

-- The product that a lookup returns is a row of the table, under the key that was asked for.
module _ (i shop : ℕ) (c : Catalog) (coherent : IsCoherent shop c) (p : Product)
    (found : (find_raw_by_id i (some shop) c).0 ≡ ok p) where
  pub found-product : product_of i (some shop) c ≡ some p
  found-product = answer-ok _ p (sym (find_raw_by_id-reads i shop c coherent) ∙ found)

  pub found-id : p.id ≡ i
  found-id =
      let holds = find_first-holds (is_product i (some shop)) c.products p found-product in
      ground arith

  found-row : IsKeyed product_key c.products → find_by_id product_key i c.products ≡ some p
  found-row keyed =
      subst (λ k. find_by_id product_key k c.products ≡ some p) found-id
        (find_by_id-find_first product_key (is_product i (some shop)) c.products p keyed
          found-product)

-- A product update keeps the cache in agreement with the database, if the product keys of the table are unique.
update-IsCoherent :
    (i shop : ℕ) (dto : UpdateProductDto) (c : Catalog)
    → IsKeyed product_key c.products
    → IsCoherent shop c
    → IsCoherent shop (update i dto shop c).1
unfolding update
update-IsCoherent i shop dto c keyed coherent =
    let after = find_raw_by_id-IsCoherent i shop c coherent in
    elim (Result-cases (find_raw_by_id i (some shop) c).0) [
      | inr (e, failed) ↦ rw failed after
      | inl (p, found) ↦
          let row = found-row i shop c coherent p found keyed in
          let mine = found-id i shop c coherent p found in
          rw found
            (elim (Bool-cases
              (clashes (assign dto p) (find_raw_by_id i (some shop) c).1.products)) [
                | inl taken ↦ rw taken after
                | inr free ↦ rw free (
                    written-IsCoherent shop i (assign dto p) (find_raw_by_id i (some shop) c).1
                      (unfold assign in mine) {old = p} (rw (find_raw_by_id-products i shop c) row)
                      after)
              ])
    ]

-- In a table with unique keys: after an update of a product that the cache and the database agree on, to a SKU that no other row of the shop has, a lookup returns the product with the fields of the request and the other fields as they were.
update-find_raw_by_id :
    (i shop : ℕ) (dto : UpdateProductDto) (c : Catalog) (p : Product)
    → IsKeyed product_key c.products
    → IsCoherent shop c
    → product_of i (some shop) c ≡ some p
    → clashes (assign dto p) c.products ≡ false
    → (find_raw_by_id i (some shop) (update i dto shop c).1).0 ≡ ok (assign dto p)
unfolding update
update-find_raw_by_id i shop dto c p keyed coherent here free =
    let found : (find_raw_by_id i (some shop) c).0 ≡ ok p =
      find_raw_by_id-reads i shop c coherent ∙ ap answer here in
    let valid = find_first-holds (is_product i (some shop)) c.products p here in
    let written : product_of i (some shop) (update i dto shop c).1 ≡ some (assign dto p) =
      rw found (
        rw (find_raw_by_id-products i shop c, free)
          (rw (find_raw_by_id-products i shop c) (
            find_first-save_self product_key (is_product i (some shop)) (assign dto p) p c.products
              here (unfold assign in refl) (unfold assign in valid)))) in
    find_raw_by_id-reads i shop (update i dto shop c).1
      (update-IsCoherent i shop dto c keyed coherent)
    ∙ ap answer written
