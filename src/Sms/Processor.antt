-- ===== src/Sms/Processor.antt =====
-- queue/processors/sms.processor.ts and modules/sms/providers/devsms.provider.ts.
use salepoint_backend.Prelude.{
  ℕ, ◌+◌, Bool, true, false, Option, none, some, String, leb, if◌then◌else◌,
}
use salepoint_backend.Sms.Defs.{
  SmsStatus, SmsLog, SmsJobData, SmsJob, Outbox, save_log, update_log, log_of,
}

-- What `send` of a provider ends in: the two identifiers of `SmsProviderResult` that the processor
-- reads, or a throw with a message.
pub data SendResult : Type 0 where
  accepted : ℕ → String → SendResult
  thrown : String → SendResult

-- The reply of `http.post`: a throw, or a body with `success`, `error` and `data`.
pub data HttpReply : Type 0 where
  unreachable : String → HttpReply
  answered : Bool → Option String → ℕ → String → HttpReply

pub record SmsConfig : Type 0 where
  pub token : String
  pub from : String
  pub base_url : String
  pub callback_url : String

abbrev message_or : Option String → String → String
message_or none other = other
message_or (some m) other = m

-- `if (!body.success) throw …`
abbrev pub read_reply : HttpReply → SendResult
read_reply (unreachable m) = thrown m
read_reply (answered true error sms_id request_id) = accepted sms_id request_id
read_reply (answered false error sms_id request_id) =
    thrown (message_or error "DevSMS: unknown error")

-- `DevSmsProvider.send`
unfoldable pub dev_sms_send :
    (SmsConfig → String → String → HttpReply) → SmsConfig → String → String → SendResult
dev_sms_send post config phone message = read_reply (post config phone message)

abbrev pub count_attempt : SmsLog → SmsLog
count_attempt log = record log { attempts = log.attempts + 1 }

-- What the job writes once the provider has taken the message.
unfoldable pub as_sent : ℕ → ℕ → String → SmsLog → SmsLog
as_sent now sms_id request_id log = record log {
  status = SmsStatus.sent;
  provider_sms_id = some sms_id;
  provider_request_id = some request_id;
  sent_at = some now;
}

-- A job that ends without a throw answers `none`, and one that throws the message of the error.
unfoldable pub after_send : ℕ → SendResult → SmsLog → Outbox → Option String × Outbox
unfolding as_sent
after_send now (accepted sms_id request_id) log s =
    (none, save_log (as_sent now sms_id request_id log) s)
after_send now (thrown message) log s = (some message, s)

-- `if (!log) return;`, and what follows.
unfoldable pub attempt_log :
    (String → String → SendResult)
    → ℕ
    → SmsJobData
    → Option SmsLog
    → Outbox
    → Option String × Outbox
unfolding after_send
attempt_log send now payload none s = (none, s)
attempt_log send now payload (some log) s =
    after_send now (send payload.phone payload.message) (count_attempt log)
      (save_log (count_attempt log) s)

-- `send` is the provider.
unfoldable pub handle_send_debt_reminder :
    (String → String → SendResult) → ℕ → SmsJobData → Outbox → Option String × Outbox
unfolding attempt_log
handle_send_debt_reminder send now payload s =
    attempt_log send now payload (log_of payload.sms_log_id s) s

abbrev pub as_failed : String → SmsLog → SmsLog
as_failed message log = record log { status = SmsStatus.failed; error_message = some message }

-- `onFailed`, with `job.attemptsMade`.
unfoldable pub on_failed : ℕ → SmsJob → String → Outbox → Outbox
on_failed attempts_made job message s =
    if leb job.attempts attempts_made
    then update_log job.payload.sms_log_id (as_failed message) s
    else s
