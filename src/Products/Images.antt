-- ===== src/Products/Images.antt =====
-- The creation of products and categories and the upload of images: products.service.ts and
-- modules/storage/storage.service.ts.
use Prim.Native.String.{◌++◌}
use mathlib.Core.List as Lists
use text.Mathlib.Text.{starts_with, ◌==◌ as str_eq}
use salepoint_backend.Prelude.{
  ℕ, ◌+◌, Bool, true, false, not, ◌&&◌, Option, none, some, List, [], ◌∷◌, String, ◌==◌, find_first,
  if◌then◌else◌,
}
use salepoint_backend.Prelude.Table.{save, find_by_id}
use salepoint_backend.Exec.{
  Exec, ok, err, pure, gets, raise_if, modify, ◌>>=◌, ◌>>◌, zoom, sku_exists, foreign_key_of_image,
  uploaded_file_not_found, internal_error,
}
use salepoint_backend.Products.Defs.{Product, UnitType, piece, Catalog, product_key, cache_del}
use salepoint_backend.Products.Service.{find_raw_by_id, save_checked, given}

-- The bucket is foreign: HEAD of a key is answered by its service, and deletions are sent to it
-- with nobody waiting for the answer.
pub data HeadReply : Type 0 where
  found not_found failing : HeadReply

pub record Category : Type 0 where
  pub id : ℕ
  pub shop_id : ℕ
  pub name : String
  pub description : Option String
  pub parent_id : Option ℕ

abbrev pub category_key : Category → ℕ
category_key c = c.id

-- `deletions` are the keys of the DELETE requests sent so far.
pub record Shelf : Type 0 where
  pub catalog : Catalog
  pub categories : List Category
  pub deletions : List String
  pub next_id : ℕ

abbrev pub in_products : {A : Type 0} → Exec Catalog A → Exec Shelf A
in_products = zoom (λ s. s.catalog) (λ c s. record s { catalog = c })

abbrev pub fresh_row_id : Exec Shelf ℕ
fresh_row_id s = (ok s.next_id, record s { next_id = s.next_id + 1 })

-- `deleteObject(key).catch(…)`
abbrev pub send_deletion : String → Shelf → Shelf
send_deletion key s = record s { deletions = Lists.◌++◌ s.deletions (key ∷ []) }

-- `publicUrl`, with `cfg.cdnEndpoint`.
unfoldable pub public_url : String → String → String
public_url cdn key = cdn ++ "/" ++ key

abbrev url_of : String → Option String → Option String
url_of cdn none = none
url_of cdn (some String.[]) = some String.[]
url_of cdn (some (String.◌∷◌ c key)) = some (public_url cdn (String.◌∷◌ c key))

-- The private `withImageUrl`.
unfoldable pub with_image_url : String → Product → Product
unfolding public_url
with_image_url cdn p = record p { image_url = url_of cdn p.image_url }

-- `CreateProductDto`, the columns that the model has.
pub record CreateProductDto : Type 0 where
  pub name : String
  pub sku : String
  pub price : ℕ
  pub cost_price : Option ℕ
  pub tax_rate : Option ℕ
  pub unit_type : Option UnitType
  pub is_active : Option Bool
  pub track_stock : Option Bool
  pub image_url : Option String
  pub barcode : Option String
  pub category_id : Option ℕ

-- `productRepo.create({ ...dto, shopId })`, with the defaults of the columns.
unfoldable pub new_product : CreateProductDto → ℕ → ℕ → Product
new_product dto shop_id id = record {
  id = id;
  shop_id = shop_id;
  name = dto.name;
  sku = dto.sku;
  price = dto.price;
  cost_price = given dto.cost_price 0;
  tax_rate = given dto.tax_rate 0;
  unit_type = given dto.unit_type piece;
  is_active = given dto.is_active true;
  track_stock = given dto.track_stock true;
  image_url = dto.image_url;
  barcode = dto.barcode;
  category_id = dto.category_id;
  deleted = false;
}

-- `findOne({ where: { shopId, sku } })`, which does not see the rows that are soft-deleted.
abbrev pub has_sku : ℕ → String → Product → Bool
has_sku shop_id sku p = (p.shop_id == shop_id) && str_eq p.sku sku && not p.deleted

abbrev pub is_present : Option Product → Bool
is_present none = false
is_present (some _) = true

unfoldable pub create : String → CreateProductDto → ℕ → Exec Shelf Product
unfolding new_product save_checked
create cdn dto shop_id = do
  exists ← gets (λ s. find_first (has_sku shop_id dto.sku) s.catalog.products)
  raise_if (is_present exists) sku_exists
  id ← fresh_row_id
  in_products (save_checked (new_product dto shop_id id))
  in_products (modify (cache_del (some shop_id) id))
  pure (with_image_url cdn (new_product dto shop_id id))

-- `expectedPrefix`; `text` is the text of a UUID.
unfoldable pub image_prefix : (ℕ → String) → ℕ → ℕ → String
image_prefix text shop_id product_id =
    ("shops/" ++ text shop_id) ++ ("/products/" ++ (text product_id ++ "/"))

-- `buildProductKey`, with the text of `randomUUID()`.
unfoldable pub build_product_key : (ℕ → String) → ℕ → ℕ → String → String → String
build_product_key text shop_id product_id uuid ext =
    ("shops/" ++ text shop_id)
    ++ ("/products/" ++ (text product_id ++ ("/" ++ (uuid ++ ("." ++ ext)))))

-- The content types that the validator admits, and the extension of each.
pub data ImageMime : Type 0 where
  jpeg png webp : ImageMime

abbrev pub extension : ImageMime → String
extension jpeg = "jpg"
extension png = "png"
extension webp = "webp"

unfoldable pub create_image_upload_url :
    (ℕ → String) → ℕ → ℕ → ImageMime → String → Exec Shelf String
unfolding build_product_key
create_image_upload_url text product_id shop_id mime uuid = do
  in_products (find_raw_by_id product_id (some shop_id))
  pure (build_product_key text shop_id product_id uuid (extension mime))

-- `headObject`
unfoldable pub head_object : HeadReply → Exec Shelf (Unit {0})
head_object found s = (ok tt, s)
head_object not_found s = (err uploaded_file_not_found, s)
head_object failing s = (err internal_error, s)

-- `if (oldKey && oldKey !== key)`
abbrev pub replaced : Option String → String → Shelf → Shelf
replaced none key s = s
replaced (some String.[]) key s = s
replaced (some (String.◌∷◌ c old)) key s =
    if str_eq (String.◌∷◌ c old) key then s else send_deletion (String.◌∷◌ c old) s

abbrev pub image_of : Option Product → Option String
image_of none = none
image_of (some row) = row.image_url

unfoldable pub with_image : Option String → Product → Product
with_image key p = record p { image_url = key }

-- `head` is the answer of the bucket to HEAD.
unfoldable pub confirm_image :
    (ℕ → String) → String → (String → HeadReply) → ℕ → ℕ → String → Exec Shelf Product
unfolding image_prefix head_object with_image
confirm_image text cdn head product_id shop_id key = do
  raise_if (not (starts_with key (image_prefix text shop_id product_id))) foreign_key_of_image
  head_object (head key)
  product ← in_products (find_raw_by_id product_id (some shop_id))
  in_products (save_checked (with_image (some key) product))
  modify (replaced product.image_url key)
  in_products (modify (cache_del (some shop_id) product_id))
  pure (with_image_url cdn (with_image (some key) product))

-- `save` of a product whose `imageUrl` is undefined: TypeORM skips what is undefined, so that column
-- of the row stays as it is.
unfoldable pub save_without_image : Product → Exec Catalog (Unit {0})
unfolding with_image save_checked
save_without_image p = do
  row ← gets (λ c. find_by_id product_key p.id c.products)
  save_checked (with_image (image_of row) p)

abbrev pub remove_key : String → Option String → ℕ → ℕ → Product → Exec Shelf Product
remove_key cdn none product_id shop_id product = pure (with_image_url cdn product)
remove_key cdn (some String.[]) product_id shop_id product = pure (with_image_url cdn product)
remove_key cdn (some (String.◌∷◌ c old)) product_id shop_id product = do
  in_products (save_without_image product)
  modify (send_deletion (String.◌∷◌ c old))
  in_products (modify (cache_del (some shop_id) product_id))
  pure (with_image none product)

unfoldable pub remove_image : String → ℕ → ℕ → Exec Shelf Product
unfolding with_image save_without_image
remove_image cdn product_id shop_id = do
  product ← in_products (find_raw_by_id product_id (some shop_id))
  remove_key cdn product.image_url product_id shop_id product

-- `categoryRepo.create(…)`
unfoldable pub create_category : ℕ → String → Option String → Option ℕ → Exec Shelf Category
create_category shop_id name description parent_id = do
  id ← fresh_row_id
  let row : Category = record {
    id = id;
    shop_id = shop_id;
    name = name;
    description = description;
    parent_id = parent_id;
  }
  modify (λ s. record s { categories = save category_key row s.categories })
  pure row
