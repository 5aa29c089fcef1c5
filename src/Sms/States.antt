-- ===== src/Sms/States.antt =====
-- What the state of a reminder says of its provider's identifier, whatever order requests, jobs and
-- callbacks come in: sms.service.ts and sms.processor.ts.
use salepoint_backend.Prelude.{
  ℕ, ◌≡◌, refl, true, inl, inr, Option, none, some, String, leb, Bool-cases, All, find_first-holds,
  List, [], ◌∷◌, Option-cases, ◌==◌,
}
use salepoint_backend.Prelude.Table.{All-save, All-find_first, update_by_id}
use salepoint_backend.Sms.Defs.{
  SmsStatus, SmsLog, SmsJobData, SmsJob, Outbox, outstanding, customer_row, sms_log_key, is_id,
  log_of,
}
use salepoint_backend.Sms.Service.{
  first, filled, send_debt_reminder, queue_reminder, new_log, SmsCallbackDto, CallbackStatus,
  handle_callback, record_callback, called_back, status_map, log_of_sms,
}
use salepoint_backend.Sms.Processor.{
  SendResult, accepted, thrown, handle_send_debt_reminder, attempt_log, after_send, as_sent,
  count_attempt, on_failed, as_failed,
}

-- A pending reminder has no identifier of the provider's; one that is sent or delivered has.
abbrev pub IsTracedAs : SmsStatus → Option ℕ → Type 0
IsTracedAs SmsStatus.pending none = Unit
IsTracedAs SmsStatus.pending (some _) = ⊥
IsTracedAs SmsStatus.sent none = ⊥
IsTracedAs SmsStatus.sent (some _) = Unit
IsTracedAs SmsStatus.delivered none = ⊥
IsTracedAs SmsStatus.delivered (some _) = Unit
IsTracedAs SmsStatus.failed _ = Unit

abbrev pub IsTraced : SmsLog → Type 0
IsTraced l = IsTracedAs l.status l.provider_sms_id

abbrev pub AllTraced : Outbox → Type 0
AllTraced s = All IsTraced s.logs

-- A step of the program on the outbox; another service leaves the log alone.
pub data Step : Outbox → Outbox → Type 0 where
  remind :
      (s : Outbox) (format : ℕ → String) (now customer shop : ℕ) (by : Option ℕ)
      → Step s (send_debt_reminder format now customer shop by s).1
  callback : (s : Outbox) (dto : SmsCallbackDto) → Step s (handle_callback dto s)
  attempt :
      (s : Outbox) (send : String → String → SendResult) (now : ℕ) (payload : SmsJobData)
      → Step s (handle_send_debt_reminder send now payload s).1
  give_up :
      (s : Outbox) (made : ℕ) (job : SmsJob) (why : String) → Step s (on_failed made job why s)
  elsewhere : (s t : Outbox) → t.logs ≡ s.logs → Step s t

pub data Reach (s : Outbox) : Outbox → Type 0 where
  here : Reach s s
  next : {t u : Outbox} → Reach s t → Step t u → Reach s u

queue_reminder-AllTraced :
    (now shop : ℕ) (by : Option ℕ) (customer : ℕ) (phone message : String) (s : Outbox)
    → AllTraced s
    → AllTraced (queue_reminder now shop by customer phone message s).1
unfolding queue_reminder new_log
queue_reminder-AllTraced now shop by customer phone message s h =
    All-save sms_log_key IsTraced (new_log s.next_id now shop by customer phone message) s.logs h tt

given-IsTraced :
    (c : CallbackStatus) (i : ℕ) (o : Option ℕ) → is_id i o ≡ true → IsTracedAs (status_map c) o
unfolding status_map
given-IsTraced CallbackStatus.sent i none e = cc
given-IsTraced CallbackStatus.sent i (some j) e = tt
given-IsTraced CallbackStatus.delivered i none e = cc
given-IsTraced CallbackStatus.delivered i (some j) e = tt
given-IsTraced CallbackStatus.failed i o e = tt

record_callback-AllTraced :
    (dto : SmsCallbackDto) (o : Option SmsLog) (s : Outbox)
    → log_of_sms dto.sms_id s ≡ o
    → AllTraced s
    → AllTraced (record_callback dto o s)
unfolding record_callback called_back
record_callback-AllTraced dto none s found h = h
record_callback-AllTraced dto (some log) s found h =
    All-save sms_log_key IsTraced (called_back dto log) s.logs h (
      given-IsTraced dto.status dto.sms_id log.provider_sms_id
        (find_first-holds (λ l. is_id dto.sms_id l.provider_sms_id) s.logs log found))

after_send-AllTraced :
    (now : ℕ) (r : SendResult) (log : SmsLog) (s : Outbox)
    → AllTraced s
    → AllTraced (after_send now r log s).1
unfolding after_send as_sent
after_send-AllTraced now (accepted i r) log s h =
    All-save sms_log_key IsTraced (as_sent now i r log) s.logs h tt
after_send-AllTraced now (thrown m) log s h = h

attempt_log-AllTraced :
    (send : String → String → SendResult) (now : ℕ) (payload : SmsJobData) (o : Option SmsLog)
    (s : Outbox)
    → log_of payload.sms_log_id s ≡ o
    → AllTraced s
    → AllTraced (attempt_log send now payload o s).1
unfolding attempt_log
attempt_log-AllTraced send now payload none s found h = h
attempt_log-AllTraced send now payload (some log) s found h =
    after_send-AllTraced now (send payload.phone payload.message) (count_attempt log) _ (
      All-save sms_log_key IsTraced (count_attempt log) s.logs h
        (All-find_first sms_log_key IsTraced _ log s.logs h found))

-- A missing row is left missing; a row that is there fails.
update_failed-AllTraced :
    (why : String) (i : ℕ) (xs : List SmsLog)
    → All IsTraced xs
    → All IsTraced (update_by_id sms_log_key i (as_failed why) xs)
update_failed-AllTraced why i [] h = tt
update_failed-AllTraced why i (x ∷ xs) h = elim (Bool-cases (sms_log_key x == i)) [
  | inl same ↦ rw same (tt, h.1)
  | inr other ↦ rw other (h.0, update_failed-AllTraced why i xs h.1)
]

on_failed-AllTraced :
    (made : ℕ) (job : SmsJob) (why : String) (s : Outbox)
    → AllTraced s
    → AllTraced (on_failed made job why s)
unfolding on_failed
on_failed-AllTraced made job why s h = elim (Bool-cases (leb job.attempts made)) [
  | inl last ↦ rw last (update_failed-AllTraced why job.payload.sms_log_id s.logs h)
  | inr more ↦ rw more h
]

send_debt_reminder-AllTraced :
    (format : ℕ → String) (now customer shop : ℕ) (by : Option ℕ) (s : Outbox)
    → AllTraced s
    → AllTraced (send_debt_reminder format now customer shop by s).1
unfolding send_debt_reminder
send_debt_reminder-AllTraced format now customer shop by s h =
    elim (Option-cases (first (outstanding customer shop s))) [
      | inl paid ↦ rw paid h
      | inr (d, owes) ↦ rw owes (elim (Option-cases (customer_row d.customer_id s)) [
        | inl missing ↦ rw missing h
        | inr (c, known) ↦ rw known (elim (Option-cases (filled c.phone)) [
          | inl empty ↦ rw empty h
          | inr (phone, given) ↦ rw given (queue_reminder-AllTraced now shop by customer _ _ s h)
        ])
      ])
    ]

Step-AllTraced : {s t : Outbox} → Step s t → AllTraced s → AllTraced t
unfolding handle_callback handle_send_debt_reminder
Step-AllTraced (remind s format now customer shop by) h =
    send_debt_reminder-AllTraced format now customer shop by s h
Step-AllTraced (callback s dto) h = record_callback-AllTraced dto _ s refl h
Step-AllTraced (attempt s send now payload) h = attempt_log-AllTraced send now payload _ s refl h
Step-AllTraced (give_up s made job why) h = on_failed-AllTraced made job why s h
Step-AllTraced (elsewhere s t same) h = rw same h

-- In every outbox that reminders, callbacks, job attempts, permanent failures and other services
-- reach from one where it holds, a pending message has no identifier of the provider's, and a sent
-- or delivered one has.
pub Reach-AllTraced : {s t : Outbox} → AllTraced s → Reach s t → AllTraced t
Reach-AllTraced h here = h
Reach-AllTraced h (next r st) = Step-AllTraced st (Reach-AllTraced h r)
