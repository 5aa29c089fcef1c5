-- ===== src/Sms/Defs.antt =====
-- modules/sms/entities/sms-log.entity.ts, the 'sms' queue and the tables that the reminders read.
use salepoint_backend.Prelude.{
  ℕ, ◌+◌, Bool, true, false, Option, none, some, List, ◌&&◌, ◌==◌, String, filter_by,
}
use salepoint_backend.Prelude.Table.{save, update_by_id, find_by_id}
use salepoint_backend.Exec.{Exec, ok}
use salepoint_backend.Accounts.{Shop}
use salepoint_backend.Entities.{Customer, Debt, is_unpaid, customer_key}
use salepoint_backend.Database.{Db}

pub data SmsStatus : Type 0 where
  pending sent delivered failed : SmsStatus

abbrev pub same_status : SmsStatus → SmsStatus → Bool
same_status pending pending = true
same_status sent sent = true
same_status delivered delivered = true
same_status failed failed = true
same_status _ _ = false

pub record SmsLog : Type 0 where
  pub id : ℕ
  pub created_at : ℕ
  pub shop_id : ℕ
  pub sent_by_user_id : Option ℕ
  pub customer_id : ℕ
  pub phone : String
  pub message : String
  pub status : SmsStatus
  pub provider : String
  pub provider_sms_id : Option ℕ
  pub provider_request_id : Option String
  pub attempts : ℕ
  pub error_message : Option String
  pub sent_at : Option ℕ
  pub delivered_at : Option ℕ
  pub failed_at : Option ℕ

abbrev pub sms_log_key : SmsLog → ℕ
sms_log_key l = l.id

-- `SmsJobData`
pub record SmsJobData : Type 0 where
  pub sms_log_id : ℕ
  pub phone : String
  pub message : String

-- A job with its option `attempts`.
pub record SmsJob : Type 0 where
  pub payload : SmsJobData
  pub attempts : ℕ

pub record Outbox : Type 0 where
  pub db : Db
  pub shops : List Shop
  pub logs : List SmsLog
  pub jobs : List SmsJob
  pub next_id : ℕ

abbrev pub save_log : SmsLog → Outbox → Outbox
save_log l s = record s { logs = save sms_log_key l s.logs }

abbrev pub update_log : ℕ → (SmsLog → SmsLog) → Outbox → Outbox
update_log i f s = record s { logs = update_by_id sms_log_key i f s.logs }

abbrev pub log_of : ℕ → Outbox → Option SmsLog
log_of i s = find_by_id sms_log_key i s.logs

-- The key of a row that is added.
abbrev pub fresh_log_id : Exec Outbox ℕ
fresh_log_id s = (ok s.next_id, record s { next_id = s.next_id + 1 })

abbrev pub is_id : ℕ → Option ℕ → Bool
is_id i none = false
is_id i (some j) = j == i

abbrev pub is_outstanding : ℕ → ℕ → Debt → Bool
is_outstanding customer_id shop_id d =
    is_id customer_id d.customer_id && (d.shop_id == shop_id) && is_unpaid d.status

abbrev pub outstanding : ℕ → ℕ → Outbox → List Debt
outstanding customer_id shop_id s = filter_by (is_outstanding customer_id shop_id) s.db.debts

-- The relation `customer` of a debt.
abbrev pub customer_row : Option ℕ → Outbox → Option Customer
customer_row none s = none
customer_row (some i) s = find_by_id customer_key i s.db.customers
