-- ===== src/Reports.antt =====
-- modules/reports/reports.service.ts: sums over the paid orders of a shop in a period.
mod Defs
mod Service
pub mod Grouping
pub mod Ordered
pub mod Totals
pub mod Dashboard
unfoldable pub use Defs.*
unfoldable pub use Service.*
