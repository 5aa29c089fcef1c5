-- ===== src/Products/Defs.antt =====
-- modules/products/entities/product.entity.ts and the cache of ProductsService. The columns that
-- no modelled method reads (description, attributes) are left out.
use salepoint_backend.Prelude.{
  ℕ, Bool, true, false, not, ◌&&◌, Option, none, some, List, ◌∷◌, String, ◌==◌, find_first,
  filter_by,
}

pub data UnitType : Type 0 where
  piece meter kilogram : UnitType

-- Prices in cents, the tax rate in hundredths of a percent; `deleted` is `deletedAt !== null`.
pub record Product : Type 0 where
  pub id : ℕ
  pub shop_id : ℕ
  pub name : String
  pub sku : String
  pub price : ℕ
  pub cost_price : ℕ
  pub tax_rate : ℕ
  pub unit_type : UnitType
  pub is_active : Bool
  pub track_stock : Bool
  pub image_url : Option String
  pub barcode : Option String
  pub category_id : Option ℕ
  pub deleted : Bool

abbrev pub product_key : Product → ℕ
product_key p = p.id

-- `cacheKey(shopId, id)`: "shop:S:product:I", or "product:I" without a shop.
pub record CacheEntry : Type 0 where
  pub shop : Option ℕ
  pub id : ℕ
  pub product : Product

pub record Catalog : Type 0 where
  pub products : List Product
  pub cache : List CacheEntry

abbrev pub same_shop : Option ℕ → Option ℕ → Bool
same_shop none none = true
same_shop (some s) (some t) = s == t
same_shop _ _ = false

abbrev pub has_key : Option ℕ → ℕ → CacheEntry → Bool
has_key shop i e = e.id == i && same_shop e.shop shop

-- A shop as a condition of a query: an absent one is no condition.
abbrev pub in_shop : Option ℕ → ℕ → Bool
in_shop none s = true
in_shop (some t) s = s == t

-- `where: { id, shopId }` over the rows that are not soft-deleted.
abbrev pub is_product : ℕ → Option ℕ → Product → Bool
is_product i shop p = p.id == i && in_shop shop p.shop_id && not p.deleted

abbrev pub product_of : ℕ → Option ℕ → Catalog → Option Product
product_of i shop c = find_first (is_product i shop) c.products

abbrev pub without_key : Option ℕ → ℕ → List CacheEntry → List CacheEntry
without_key shop i = filter_by (λ e. not (has_key shop i e))

-- `cache.get`, `cache.set` and `cache.del`.
abbrev pub cached_of : ℕ → Option ℕ → Catalog → Option Product
cached_of i shop c = elim (find_first (has_key shop i) c.cache) [
  | none ↦ none
  | some e ↦ some e.product
]

abbrev pub cache_set : Option ℕ → ℕ → Product → Catalog → Catalog
cache_set shop i p c = record c {
  cache = record { shop = shop; id = i; product = p } ∷ without_key shop i c.cache;
}

abbrev pub cache_del : Option ℕ → ℕ → Catalog → Catalog
cache_del shop i c = record c { cache = without_key shop i c.cache }
