-- ===== src/Sms/Service.antt =====
-- modules/sms/sms.service.ts and sms.controller.ts.
use Prim.Native.String.{◌++◌}
use Prim.Native.Char.{code}
use salepoint_backend.Prelude.{
  ℕ, Bool, not, ◌&&◌, Option, none, some, List, [], ◌∷◌, String, ◌==◌, leb, if◌then◌else◌,
  find_first, sum_by,
}
use mathlib.Core.List as Lists
use salepoint_backend.Exec.{
  Exec, pure, gets, or_raise, modify, ◌>>=◌, ◌>>◌, no_outstanding_debts, no_phone,
}
use salepoint_backend.Accounts.{Shop}
use salepoint_backend.Entities.{Debt}
use salepoint_backend.Sms.Defs.{
  SmsStatus, SmsLog, SmsJobData, Outbox, save_log, fresh_log_id, outstanding, customer_row, is_id,
}

-- `phone.replace(/\D/g, '')`
abbrev is_digit : ℕ → Bool
is_digit c = leb 48 c && leb c 57

unfoldable pub digits_of : String → String
digits_of String.[] = String.[]
digits_of (String.◌∷◌ c s) =
    let rest = digits_of s in if is_digit (code c) then String.◌∷◌ c rest else rest

-- An absent phone and an empty one are both falsy.
abbrev pub filled : Option String → Option String
filled none = none
filled (some String.[]) = none
filled (some (String.◌∷◌ c s)) = some (String.◌∷◌ c s)

abbrev pub first : List Debt → Option Debt
first [] = none
first (d ∷ _) = some d

-- `debts.reduce((sum, d) => sum + Number(d.remainingAmount), 0)`, in cents.
abbrev pub total_remaining : List Debt → ℕ
total_remaining = sum_by (λ d. d.remaining_amount)

-- `shop?.name ?? ''`, of `findOneBy({ id: shopId })`.
abbrev name_of_shop : Option Shop → String
name_of_shop none = ""
name_of_shop (some s) = s.name

abbrev pub shop_name : ℕ → Outbox → String
shop_name i s = name_of_shop (find_first (λ (r : Shop). (r.id == i) && not r.deleted) s.shops)

-- `buildReminderMessage`; `format` is `Intl.NumberFormat('uz-UZ').format`, of an amount in cents,
-- with plain spaces.
unfoldable pub build_reminder_message : (ℕ → String) → String → ℕ → String → String
build_reminder_message format customer_name total shop =
    "Hurmatli "
    ++ customer_name
    ++ ", \""
    ++ shop
    ++ "\" do'konidan jami "
    ++ format total
    ++ " so'm qarzingiz bor. Iltimos, o'z vaqtida to'lang."

-- `smsLogRepo.create(…)`
unfoldable pub new_log : ℕ → ℕ → ℕ → Option ℕ → ℕ → String → String → SmsLog
new_log id now shop_id sent_by customer_id phone message = record {
  id = id;
  created_at = now;
  shop_id = shop_id;
  sent_by_user_id = sent_by;
  customer_id = customer_id;
  phone = phone;
  message = message;
  status = SmsStatus.pending;
  provider = "devsms";
  provider_sms_id = none;
  provider_request_id = none;
  attempts = 0;
  error_message = none;
  sent_at = none;
  delivered_at = none;
  failed_at = none;
}

-- `smsQueue.add('send-debt-reminder', …, { attempts: 3, … })`
abbrev pub add_job : SmsJobData → Outbox → Outbox
add_job payload s = record s {
  jobs = Lists.◌++◌ s.jobs (record { payload = payload; attempts = 3 } ∷ []);
}

-- After the checks: the row and the job.
unfoldable pub queue_reminder : ℕ → ℕ → Option ℕ → ℕ → String → String → Exec Outbox ℕ
unfolding new_log
queue_reminder now shop_id sent_by customer_id phone message = do
  id ← fresh_log_id
  modify (save_log (new_log id now shop_id sent_by customer_id phone message))
  modify (add_job (record { sms_log_id = id; phone = phone; message = message }))
  pure id

unfoldable pub send_debt_reminder : (ℕ → String) → ℕ → ℕ → ℕ → Option ℕ → Exec Outbox ℕ
unfolding digits_of build_reminder_message queue_reminder
send_debt_reminder format now customer_id shop_id sent_by = do
  debts ← gets (outstanding customer_id shop_id)
  debt ← or_raise (first debts) no_outstanding_debts
  customer ← or_raise (← gets (customer_row debt.customer_id)) no_phone
  phone ← or_raise (filled customer.phone) no_phone
  shop ← gets (shop_name shop_id)
  queue_reminder now shop_id sent_by customer_id (digits_of phone)
      (build_reminder_message format customer.name (total_remaining debts) shop)

-- `SmsCallbackDto`: the validator admits these three states; an absent time is falsy.
pub data CallbackStatus : Type 0 where
  sent delivered failed : CallbackStatus

pub record SmsCallbackDto : Type 0 where
  pub sms_id : ℕ
  pub status : CallbackStatus
  pub sent_at : Option ℕ
  pub delivered_at : Option ℕ
  pub failed_at : Option ℕ

-- `statusMap`
unfoldable pub status_map : CallbackStatus → SmsStatus
status_map CallbackStatus.sent = SmsStatus.sent
status_map CallbackStatus.delivered = SmsStatus.delivered
status_map CallbackStatus.failed = SmsStatus.failed

abbrev pub or_old : Option ℕ → Option ℕ → Option ℕ
or_old none old = old
or_old (some new) old = some new

unfoldable pub called_back : SmsCallbackDto → SmsLog → SmsLog
unfolding status_map
called_back dto log = record log {
  status = status_map dto.status;
  sent_at = or_old dto.sent_at log.sent_at;
  delivered_at = or_old dto.delivered_at log.delivered_at;
  failed_at = or_old dto.failed_at log.failed_at;
}

abbrev pub log_of_sms : ℕ → Outbox → Option SmsLog
log_of_sms i s = find_first (λ l. is_id i l.provider_sms_id) s.logs

-- `if (!log) return;`, and what follows.
unfoldable pub record_callback : SmsCallbackDto → Option SmsLog → Outbox → Outbox
unfolding called_back
record_callback dto none s = s
record_callback dto (some log) s = save_log (called_back dto log) s

unfoldable pub handle_callback : SmsCallbackDto → Outbox → Outbox
unfolding record_callback
handle_callback dto s = record_callback dto (log_of_sms dto.sms_id s) s
