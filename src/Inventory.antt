-- ===== src/Inventory.antt =====
-- modules/inventory/inventory.service.ts: stock levels, storage batches and stock movements.
-- Quantities are in thousandths of a unit (numeric(14, 3), at most 3 decimals by the validators),
-- money is in cents. The tables are in the order of creation, which is the order of the queries.
mod Defs
mod Service
mod Receiving
mod Listing
pub mod Fifo
pub mod Oldest
pub mod Sound
pub mod Taken
pub mod Whole
pub mod Reserve
pub mod Deduct
pub mod Receive
pub mod Adjust
pub use Defs.*
unfoldable pub use Service.*
unfoldable pub use Receiving.*
unfoldable pub use Listing.*
