-- ===== src/Orders.antt =====
-- modules/orders: the totals of an order, and the methods of OrdersService.
mod Totals
mod Service
mod Listing
pub mod Lines
pub mod Placed
pub mod Loops
pub mod Safety
pub mod Released
pub mod Positive
pub mod Reserved
pub mod Promised
unfoldable pub use Totals.*
unfoldable pub use Service.*
unfoldable pub use Listing.*
