-- ===== src/Products/Service.antt =====
-- modules/products/products.service.ts and utils/quantity.util.ts.
use salepoint_backend.Prelude.{
  ℕ, ◌%◌, Bool, true, false, not, ◌&&◌, Option, none, some, String, ◌==◌, List, any_by,
}
use text.Mathlib.Text.{◌==◌ as str_eq}
use salepoint_backend.Prelude.Table.{save, update_by_id}
use salepoint_backend.Exec.{
  Exec, ok, err, pure, raise_if, modify, ◌>>=◌, ◌>>◌, product_not_found, whole_quantity_required,
  internal_error, gets,
}
use salepoint_backend.Products.Defs.{
  Product, UnitType, piece, Catalog, product_key, product_of, cached_of, cache_set, cache_del,
}

abbrev pub is_piece : UnitType → Bool
is_piece piece = true
is_piece _ = false

-- `Number.isInteger(quantity)`, of a quantity in thousandths.
abbrev pub is_whole : ℕ → Bool
is_whole quantity = quantity % 1000 == 0

-- `assertQuantityForUnit`
unfoldable pub assert_quantity_for_unit : {S : Type 0} → Product → ℕ → Exec S (Unit {0})
assert_quantity_for_unit product quantity =
    raise_if (is_piece product.unit_type && not (is_whole quantity)) whole_quantity_required

-- The lookup that a miss of the cache makes, and the entry that it leaves.
fetch : ℕ → Option ℕ → Option Product → Exec Catalog Product
fetch i shop none c = (err product_not_found, c)
fetch i shop (some p) c = (ok p, cache_set shop i p c)

find_cached : ℕ → Option ℕ → Option Product → Exec Catalog Product
unfolding fetch
find_cached i shop (some p) c = (ok p, c)
find_cached i shop none c = fetch i shop (product_of i shop c) c

-- The private `findRawById`.
unfoldable pub find_raw_by_id : ℕ → Option ℕ → Exec Catalog Product
unfolding find_cached
find_raw_by_id i shop c = find_cached i shop (cached_of i shop c) c

-- `UpdateProductDto`: every field may be absent.
pub record UpdateProductDto : Type 0 where
  pub name : Option String
  pub sku : Option String
  pub price : Option ℕ
  pub cost_price : Option ℕ
  pub tax_rate : Option ℕ
  pub unit_type : Option UnitType
  pub is_active : Option Bool
  pub track_stock : Option Bool
  pub image_url : Option String
  pub barcode : Option String
  pub category_id : Option ℕ

abbrev pub given {ℓ} : {A : Type ℓ} → Option A → A → A
given none old = old
given (some new) old = new

abbrev pub given_some {ℓ} : {A : Type ℓ} → Option A → Option A → Option A
given_some none old = old
given_some (some new) old = some new

-- `Object.assign(product, dto)`
unfoldable pub assign : UpdateProductDto → Product → Product
assign dto p = record p {
  name = given dto.name p.name;
  sku = given dto.sku p.sku;
  price = given dto.price p.price;
  cost_price = given dto.cost_price p.cost_price;
  tax_rate = given dto.tax_rate p.tax_rate;
  unit_type = given dto.unit_type p.unit_type;
  is_active = given dto.is_active p.is_active;
  track_stock = given dto.track_stock p.track_stock;
  image_url = given_some dto.image_url p.image_url;
  barcode = given_some dto.barcode p.barcode;
  category_id = given_some dto.category_id p.category_id;
}

abbrev pub save_product : Product → Catalog → Catalog
save_product p c = record c { products = save product_key p c.products }

-- The unique index on `shopId` and `sku`, which holds the rows that are soft-deleted too.
abbrev pub same_sku : Product → Product → Bool
same_sku p q = p.shop_id == q.shop_id && str_eq p.sku q.sku

abbrev pub clashes : Product → List Product → Bool
clashes p = any_by (λ q. not (q.id == p.id) && same_sku q p)

-- `productRepo.save`, which fails with a database error where the index forbids the row.
unfoldable pub save_checked : Product → Exec Catalog (Unit {0})
save_checked p = do
  raise_if (← gets (λ c. clashes p c.products)) internal_error
  modify (save_product p)

unfoldable pub update : ℕ → UpdateProductDto → ℕ → Exec Catalog Product
unfolding save_checked
update i dto shop_id = do
  product ← find_raw_by_id i (some shop_id)
  save_checked (assign dto product)
  modify (cache_del (some shop_id) i)
  pure (assign dto product)

-- `productRepo.softDelete(id)`
abbrev pub soft_delete : ℕ → Catalog → Catalog
soft_delete i c = record c {
  products = update_by_id product_key i (λ p. record p { deleted = true }) c.products;
}

-- The deletion of the stored image is a call of StorageService whose failure is only logged.
unfoldable pub remove : ℕ → ℕ → Exec Catalog (Unit {0})
remove i shop_id = do
  find_raw_by_id i (some shop_id)
  modify (soft_delete i)
  modify (cache_del (some shop_id) i)

-- `productRepo.update(id, { price, costPrice })`, which `addToStorage` makes past the cache.
unfoldable pub sync_price : ℕ → ℕ → ℕ → Catalog → Catalog
sync_price i price cost c = record c {
  products =
      update_by_id product_key i (λ p. record p { price = price; cost_price = cost }) c.products;
}
