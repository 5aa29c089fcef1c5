-- ===== src/Products/Prices.antt =====
-- A price that `addToStorage` (inventory.service.ts) writes past the cache of products.service.ts.
use salepoint_backend.Prelude.{ℕ, ◌≡◌, subst, false, none, some}
use salepoint_backend.Prelude.Table.{find_by_id, save, find_by_id-save_self}
use salepoint_backend.Exec.{ok}
use salepoint_backend.Products.Defs.{Product, Catalog, cached_of, product_key}
use salepoint_backend.Products.Service.{
  find_raw_by_id, update, sync_price, UpdateProductDto, assign, clashes,
}

-- `addToStorage` writes a new price past the cache: while an entry for the product stands, lookups go on to return the product with its old price.
sync_price_stale :
    (i shop price cost : ℕ) (c : Catalog) (p : Product)
    → cached_of i (some shop) c ≡ some p
    → (find_raw_by_id i (some shop) (sync_price i price cost c)).0 ≡ ok p
unfolding find_raw_by_id sync_price
sync_price_stale i shop price cost c p hit = rw hit

-- An update from a cached product writes that product with the request's fields.
update-hit :
    (i shop : ℕ) (dto : UpdateProductDto) (c : Catalog) (p : Product)
    → cached_of i (some shop) c ≡ some p
    → clashes (assign dto p) c.products ≡ false
    → (update i dto shop c).1.products ≡ save product_key (assign dto p) c.products
unfolding update find_raw_by_id
update-hit i shop dto c p hit free = rw hit (rw free)

-- The row of product i after `addToStorage` has written a new price past a cache that held the product: an update that gives no price writes the price from before the delivery back into the row.
pub update_restores_price :
    (i shop price cost : ℕ) (dto : UpdateProductDto) (c : Catalog) (p : Product)
    → cached_of i (some shop) c ≡ some p
    → p.id ≡ i
    → dto.price ≡ none
    → let c' = sync_price i price cost c in
      clashes (assign dto p) c'.products ≡ false
      → (row : Product) × (find_by_id product_key i (update i dto shop c').1.products ≡ some row)
        × (row.price ≡ p.price)
unfolding assign sync_price
update_restores_price i shop price cost dto c p hit mine silent free =
    let c' = sync_price i price cost c in
    (
      assign dto p,
      rw (update-hit i shop dto c' p hit free) (
          subst
            (λ k.
              find_by_id product_key k (save product_key (assign dto p) c'.products)
              ≡ some (assign dto p))
            mine (find_by_id-save_self product_key (assign dto p) c'.products)),
      rw silent,
    )
