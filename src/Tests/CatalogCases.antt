-- ===== src/Tests/CatalogCases.antt =====
-- The theorems of the product cache and of pagination at sample data.
use salepoint_backend.Prelude.{ℕ, none, some, List, [], ◌∷◌}
use salepoint_backend.Pagination.{PaginationQuery}
use salepoint_backend.Products.{Catalog, UpdateProductDto, cache_set}
use salepoint_backend.Products.Coherence.{IsCoherent}
use salepoint_backend.Tests.Samples.{tea, catalog}

pub catalog-IsCoherent : IsCoherent 1 catalog
catalog-IsCoherent = record { fresh = λ i p q. cc }

-- A new price of 3.50.
abbrev pub raise_price : UpdateProductDto
raise_price = record {
  name = none;
  sku = none;
  price = some 350;
  cost_price = none;
  tax_rate = none;
  unit_type = none;
  is_active = none;
  track_stock = none;
  image_url = none;
  barcode = none;
  category_id = none;
}

abbrev pub warm : Catalog
warm = cache_set (some 1) 7 tea catalog

abbrev rows : List ℕ
rows = 1 ∷ 2 ∷ []

abbrev third_page : PaginationQuery
third_page = record { page = 3; limit = 10; search = none }
