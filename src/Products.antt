-- ===== src/Products.antt =====
-- modules/products: the product rows, the Redis cache in front of them, and the unit rule.
mod Defs
mod Service
mod Images
mod Listing
pub mod Prices
pub mod Pictures
pub mod Skus
pub mod Tenants
pub mod Coherence
pub use Defs.*
unfoldable pub use Service.*
unfoldable pub use Images.*
unfoldable pub use Listing.*
