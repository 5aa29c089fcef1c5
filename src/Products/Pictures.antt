-- ===== src/Products/Pictures.antt =====
-- Which keys `confirmImage` takes for a product, and what it and `removeImage` leave in the row:
-- products.service.ts and storage.service.ts.
use Prim.Native.String.{◌++◌, count}
use Prim.Native.Char.{Char}
use mathlib.Core.List as Lists
use text.Mathlib.Text.{starts_with}
use text.Mathlib.TextBridge.{IsPrefix}
use text.Mathlib.TextEquality.{starts_with_iff}
use text.Mathlib.TextLemmas.{append_assoc, append_cancel_left, append_inj, length-append}
use salepoint_backend.Prelude.{
  ℕ, ◌+◌, ◌≡◌, ◌≢◌, refl, ap, sym, ◌∙◌, ◌⊎◌, inl, inr, true, false, Option, none, some, [], ◌∷◌,
  String, arith, ==_refl, Bool-cases, find_first-holds,
}
use salepoint_backend.Prelude.Table.{
  IsKeyed, find_by_id, find_first-save_self, find_by_id-find_first,
}
use salepoint_backend.Exec.{ok, err, foreign_key_of_image}
use salepoint_backend.Products.Defs.{
  Product, Catalog, product_key, product_of, cached_of, is_product, cache_del,
}
use salepoint_backend.Products.Service.{find_raw_by_id, save_checked, save_product, clashes}
use salepoint_backend.Products.Images.{
  Shelf, HeadReply, found, image_prefix, build_product_key, confirm_image, with_image,
  with_image_url, replaced, remove_image, save_without_image, head_object, image_of,
}
use salepoint_backend.Products.Coherence.{
  IsCoherent, find_raw_by_id-reads, find_raw_by_id-products, answer, cached-cache_del,
}

module _ (text : ℕ → String) where
  own_prefix :
      (shop product : ℕ) (uuid ext : String)
      → image_prefix text shop product ++ (uuid ++ ("." ++ ext))
        ≡ build_product_key text shop product uuid ext
  unfolding image_prefix build_product_key
  own_prefix shop product uuid ext =
      append_assoc ("shops/" ++ text shop) ("/products/" ++ (text product ++ "/"))
        (uuid ++ ("." ++ ext))
      ∙ ap (λ t. ("shops/" ++ text shop) ++ t)
          (append_assoc "/products/" (text product ++ "/") (uuid ++ ("." ++ ext))
            ∙ ap (λ t. "/products/" ++ t) (append_assoc (text product) "/" (uuid ++ ("." ++ ext))))

  own_key_starts :
      (shop product : ℕ) (uuid ext : String)
      → starts_with (build_product_key text shop product uuid ext) (image_prefix text shop product)
        ≡ true
  own_key_starts shop product uuid ext =
      (starts_with_iff (build_product_key text shop product uuid ext)
          (image_prefix text shop product)).1
        (uuid ++ ("." ++ ext), own_prefix shop product uuid ext)

  module _ (shop product shop' product' : ℕ) (shops_long : count (text shop) ≡ count (text shop'))
      (products_long : count (text product) ≡ count (text product'))
      (shops_apart : text shop ≡ text shop' → shop ≡ shop')
      (products_apart : text product ≡ text product' → product ≡ product') where
    prefix_owner :
        (uuid ext : String)
        → IsPrefix (image_prefix text shop product) (build_product_key text shop' product' uuid ext)
        → (shop ≡ shop') × (product ≡ product')
    unfolding image_prefix build_product_key
    prefix_owner uuid ext (r, e) =
        let halves =
          append_inj
            (sym (append_assoc ("shops/" ++ text shop) ("/products/" ++ (text product ++ "/")) r)
              ∙ e)
            (length-append "shops/" (text shop)
              ∙ ap (λ n. count "shops/" + n) shops_long
              ∙ sym (length-append "shops/" (text shop'))) in
        let tails =
          append_inj
            (sym (append_assoc (text product) "/" r)
              ∙ append_cancel_left "/products/" ((text product ++ "/") ++ r) _
                  (sym (append_assoc "/products/" (text product ++ "/") r) ∙ halves.1))
            products_long in
        (
          shops_apart (append_cancel_left "shops/" (text shop) (text shop') halves.0),
          products_apart tails.0,
        )

    -- Where the texts of the keys of the two shops, and those of the two products, are of one length and differ if the keys do: a key that the storage built for another product or another shop is refused with 403, and nothing is looked up or written.
    pub confirm_image_foreign :
        (cdn : String) (head : String → HeadReply) (uuid ext : String) (s : Shelf)
        → (shop ≢ shop') ⊎ (product ≢ product')
        → confirm_image text cdn head product shop
            (build_product_key text shop' product' uuid ext)
            s
          ≡ (err foreign_key_of_image, s)
    unfolding confirm_image
    confirm_image_foreign cdn head uuid ext s other =
        let key = build_product_key text shop' product' uuid ext in
        elim (Bool-cases (starts_with key (image_prefix text shop product))) [
          | inr foreign ↦ rw foreign
          | inl mine ↦
              let owner =
                prefix_owner uuid ext
                  ((starts_with_iff key (image_prefix text shop product)).0 mine) in
              absurd (ground (arith, owner.0, owner.1, other))
        ]

replaced-catalog :
    (old : Option String) (key : String) (s : Shelf) → (replaced old key s).catalog ≡ s.catalog
replaced-catalog none key s = refl
replaced-catalog (some String.[]) key s = refl
replaced-catalog (some (String.◌∷◌ c old)) key s = ground arith

cached-cache_del_self :
    (shop i : ℕ) (c : Catalog) → cached_of i (some shop) (cache_del (some shop) i c) ≡ none
cached-cache_del_self shop i c = rw (cached-cache_del shop i i c) (rw (==_refl i))

-- A row with its own image is itself.
with_image_own : (p : Product) → with_image (image_of (some p)) p ≡ p
unfolding with_image
with_image_own p = refl

module _ (cdn : String) (shop i : ℕ) (p : Product) (s : Shelf)
    (coherent : IsCoherent shop s.catalog)
    (here : product_of i (some shop) s.catalog ≡ some p) where
  looked_up : (find_raw_by_id i (some shop) s.catalog).0 ≡ ok p
  looked_up = find_raw_by_id-reads i shop s.catalog coherent ∙ ap answer here

  same_products : (find_raw_by_id i (some shop) s.catalog).1.products ≡ s.catalog.products
  same_products = find_raw_by_id-products i shop s.catalog

  -- From a cache that agrees with the database: a key that the storage built for the product itself, under which the bucket holds an object, is accepted; the row of the product then holds the key, the cache has no entry for the product, and the reply shows the public address of the key.
  pub confirm_image_own :
      (text : ℕ → String) (head : String → HeadReply) (uuid ext : String)
      → let key = build_product_key text shop i uuid ext in
        head key ≡ found
        → clashes (with_image (some key) p) s.catalog.products ≡ false
        → let (r, t) = confirm_image text cdn head i shop key s in
          (r ≡ ok (with_image_url cdn (with_image (some key) p)))
          × (product_of i (some shop) t.catalog ≡ some (with_image (some key) p))
          × (cached_of i (some shop) t.catalog ≡ none)
  unfolding confirm_image head_object save_checked
  confirm_image_own text head uuid ext held free =
      let key = build_product_key text shop i uuid ext in
      let valid = find_first-holds (is_product i (some shop)) s.catalog.products p here in
      rw (own_key_starts text shop i uuid ext, held)
        (rw looked_up (
          rw (same_products, free)
            (
              refl,
              rw (replaced-catalog p.image_url key) (
                  rw same_products (
                    find_first-save_self product_key (is_product i (some shop))
                      (with_image (some key) p) p s.catalog.products here
                      (unfold with_image in refl) (unfold with_image in valid))),
              rw (replaced-catalog p.image_url key) (
                  cached-cache_del_self shop i (
                    save_product (with_image (some key) p)
                      (find_raw_by_id i (some shop) s.catalog).1)),
            )))

  -- From a cache that agrees with the database: the removal of an image sends the deletion of the stored object, but leaves the row of the product as it is, with the key of the deleted object.
  pub remove_image_keeps_key :
      (first : Char) (rest : String)
      → IsKeyed product_key s.catalog.products
      → clashes p s.catalog.products ≡ false
      → p.image_url ≡ some (String.◌∷◌ first rest)
      → let (r, t) = remove_image cdn i shop s in
        (r ≡ ok (with_image none p))
        × (t.deletions ≡ Lists.◌++◌ s.deletions (String.◌∷◌ first rest ∷ []))
        × (product_of i (some shop) t.catalog ≡ some p)
        × (cached_of i (some shop) t.catalog ≡ none)
  unfolding remove_image save_without_image save_checked
  remove_image_keeps_key first rest keyed free image =
      let valid = find_first-holds (is_product i (some shop)) s.catalog.products p here in
      let row : find_by_id product_key p.id s.catalog.products ≡ some p =
        find_by_id-find_first product_key (is_product i (some shop)) s.catalog.products p keyed
          here in
      let written : product_of i (some shop)
            (save_product p (find_raw_by_id i (some shop) s.catalog).1)
          ≡ some p =
        rw same_products (
          find_first-save_self product_key (is_product i (some shop)) p p s.catalog.products here
            refl valid) in
      rw looked_up (
        rw image (
          rw (same_products, row, with_image_own p, free)
            (
              refl,
              refl,
              rw (← image) written,
              cached-cache_del_self shop i
                  (save_product p (find_raw_by_id i (some shop) s.catalog).1),
            )))
