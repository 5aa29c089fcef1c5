-- ===== src/Tests/ShelfCases.antt =====
-- The theorems of the creation, the images and the prices of products at sample data.
use salepoint_backend.Prelude.{
  ℕ, zero, suc, ◌≡◌, refl, inr, true, none, some, [], ◌∷◌, String, arith, ◌==◌, if◌then◌else◌,
}
use salepoint_backend.Prelude.Table.{find_by_id}
use salepoint_backend.Exec.{ok, err, foreign_key_of_image, internal_error}
use salepoint_backend.Products.{
  Product, product_key, product_of, cached_of, update, sync_price, assign, Shelf, HeadReply,
  confirm_image, remove_image, build_product_key, with_image, with_image_url, create,
  CreateProductDto, new_product,
}
use salepoint_backend.Products.Coherence.{IsCoherent}
use salepoint_backend.Products.Prices.{update_restores_price}
use salepoint_backend.Products.Pictures.{
  confirm_image_foreign, confirm_image_own, remove_image_keeps_key,
}
use salepoint_backend.Tests.Samples.{tea, catalog}
use salepoint_backend.Tests.CatalogCases.{raise_price, warm, catalog-IsCoherent}

abbrev shelf : Shelf
shelf = record { catalog = catalog; categories = []; deletions = []; next_id = 30 }

-- A stand-in for the texts of the keys.
abbrev text : ℕ → String
text zero = "0"
text (suc n) = if n == 6 then "7" else "1"

abbrev stored : String → HeadReply
stored key = HeadReply.found

sevens_differ : text 7 ≡ text 2 → ◌≡◌ {A = ℕ} 7 2
sevens_differ e = cc

confirm_image_own_example :
    let key = build_product_key text 1 7 "u" "jpg" in
    let (r, t) = confirm_image text "https://cdn" stored 7 1 key shelf in
    (r ≡ ok (with_image_url "https://cdn" (with_image (some key) tea)))
    × (product_of 7 (some 1) t.catalog ≡ some (with_image (some key) tea))
    × (cached_of 7 (some 1) t.catalog ≡ none)
unfolding with_image
confirm_image_own_example =
    confirm_image_own "https://cdn" 1 7 tea shelf catalog-IsCoherent refl text stored "u" "jpg" refl
      refl

-- A key of product 2 is not one of product 7.
confirm_image_foreign_example :
    confirm_image text "https://cdn" stored 7 1 (build_product_key text 1 2 "u" "png") shelf
    ≡ (err foreign_key_of_image, shelf)
confirm_image_foreign_example =
    confirm_image_foreign text 1 7 1 2 refl refl (λ e. refl) (λ e. sevens_differ e) "https://cdn"
      stored "u" "png" shelf (inr (omega arith))

-- The tea with the picture p.
abbrev pictured : Product
pictured = record tea { image_url = some "p" }

abbrev shelf_with_picture : Shelf
shelf_with_picture = record shelf { catalog = record { products = pictured ∷ []; cache = [] } }

pictured-IsCoherent : IsCoherent 1 shelf_with_picture.catalog
pictured-IsCoherent = record { fresh = λ i p q. cc }

remove_image_keeps_key_example :
    let (r, t) = remove_image "https://cdn" 7 1 shelf_with_picture in
    (r ≡ ok (with_image none pictured))
    × (t.deletions ≡ "p" ∷ [])
    × (product_of 7 (some 1) t.catalog ≡ some pictured)
    × (cached_of 7 (some 1) t.catalog ≡ none)
remove_image_keeps_key_example =
    remove_image_keeps_key "https://cdn" 1 7 pictured shelf_with_picture pictured-IsCoherent refl
      "p" "" (refl, tt) refl refl

abbrev coffee : CreateProductDto
coffee = record {
  name = "coffee";
  sku = "C-1";
  price = 900;
  cost_price = none;
  tax_rate = none;
  unit_type = none;
  is_active = none;
  track_stock = none;
  image_url = none;
  barcode = none;
  category_id = none;
}

-- The SKU of a product that was removed gives a database error.
removed_sku :
    (create "https://cdn"
      (record coffee { sku = "T-7" })
      1
      (record shelf {
        catalog = record { products = record tea { deleted = true } ∷ []; cache = [] };
      })).0
    ≡ err internal_error
unfolding create new_product
removed_sku = refl

update_restores_price_example :
    let c' = sync_price 7 350 250 warm in
    (row : Product) × (find_by_id product_key 7
        (update 7 (record raise_price { price = none }) 1 c').1.products
      ≡ some row)
    × (row.price ≡ 300)
unfolding assign sync_price
update_restores_price_example =
    update_restores_price 7 1 350 250 (record raise_price { price = none }) warm tea refl refl refl
      refl
