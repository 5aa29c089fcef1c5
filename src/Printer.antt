-- ===== src/Printer.antt =====
-- modules/printer/printer.service.ts and the receipts of modules/orders/orders.service.ts.
mod Numbers
mod Receipt
mod Parts
pub mod Created
pub mod Layout
unfoldable pub use Numbers.*
unfoldable pub use Receipt.*
