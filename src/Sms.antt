-- ===== src/Sms.antt =====
-- modules/sms (sms.service.ts, sms.controller.ts, providers/devsms.provider.ts, entities) and
-- queue/processors/sms.processor.ts: reminders of debts, their delivery and the log of it.
mod Defs
mod Service
mod Processor
mod Listing
pub mod Retries
pub mod Reminders
pub mod Logs
pub mod States
unfoldable pub use Defs.*
unfoldable pub use Service.*
unfoldable pub use Processor.*
unfoldable pub use Listing.*
