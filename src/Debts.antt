-- ===== src/Debts.antt =====
-- modules/debts: the debt that an unpaid part of an order leaves, and its repayment.
mod Service
mod Listing
pub mod Repaid
unfoldable pub use Service.*
mod Summary
pub mod Debtors
unfoldable pub use Summary.*
unfoldable pub use Listing.*
