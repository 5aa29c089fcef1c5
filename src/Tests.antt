-- ===== src/Tests.antt =====
-- The theorems applied to sample data.
pub mod Samples
mod StockCases
pub mod CatalogCases
mod SalesCases
mod MoneyCases
mod AccountCases
pub mod SmsCases
mod JobCases
mod ShelfCases
mod ListCases
mod DoubleCases
mod ReportCases
