-- ===== src/Sms/Retries.antt =====
-- The attempts that the queue makes at one job: sms.processor.ts, under Bull's documented retries.
use salepoint_backend.Prelude.{
  ℕ, zero, suc, ◌+◌, ◌-◌, ◌<◌, ◌≤◌, ◌≡◌, refl, ap, subst, ◌∙◌, ◌⊎◌, true, inl, inr, Option, none,
  some, String, arith, leb,
}
use salepoint_backend.Prelude.Table.{
  find_by_id, find_by_id-save_self, find_by_id-key, save, find_by_id-update_by_id_self,
}
use salepoint_backend.Sms.Defs.{SmsStatus, SmsLog, SmsJobData, SmsJob, Outbox, sms_log_key, log_of}
use salepoint_backend.Sms.Processor.{
  SendResult, accepted, thrown, handle_send_debt_reminder, attempt_log, after_send, as_sent,
  count_attempt, on_failed, as_failed,
}

-- Bull runs a job until the handler returns or `attempts` runs are made; after each throw it calls
-- the listener with the number of runs made. `send n` is the provider at the n-th attempt.
pub data Attempts (send : ℕ → String → String → SendResult) (now : ℕ) (job : SmsJob)
    : ℕ → Outbox → Outbox → Type 0 where
  done :
      {made : ℕ} {s t : Outbox}
      → handle_send_debt_reminder (send made) now job.payload s ≡ (none, t)
      → Attempts send now job made s t
  again :
      {made : ℕ} {s t u : Outbox} (why : String)
      → handle_send_debt_reminder (send made) now job.payload s ≡ (some why, t)
      → suc made < job.attempts
      → Attempts send now job (suc made) (on_failed (suc made) job why t) u
      → Attempts send now job made s u
  exhausted :
      {made : ℕ} {s t : Outbox} (why : String)
      → handle_send_debt_reminder (send made) now job.payload s ≡ (some why, t)
      → job.attempts ≤ suc made
      → Attempts send now job made s (on_failed (suc made) job why t)

log_of-save_log :
    (i : ℕ) (l : SmsLog) (s : Outbox)
    → l.id ≡ i
    → find_by_id sms_log_key i (save sms_log_key l s.logs) ≡ some l
log_of-save_log i l s same =
    subst (λ k. find_by_id sms_log_key k (save sms_log_key l s.logs) ≡ some l) same
      (find_by_id-save_self sms_log_key l s.logs)

-- The log as a run of the handler leaves it: sent if the handler returned, and counted otherwise.
abbrev Attempted : SmsLog → Option String → SmsLog → Type 0
Attempted log none log' = (log'.status ≡ SmsStatus.sent) × (log'.attempts ≡ log.attempts + 1)
Attempted log (some _) log' = log' ≡ count_attempt log

after_send-Attempted :
    (now i : ℕ) (r : SendResult) (log : SmsLog) (s : Outbox)
    → log.id ≡ i
    → log_of i s ≡ some (count_attempt log)
    → (log' : SmsLog) × (log_of i (after_send now r (count_attempt log) s).1 ≡ some log')
      × Attempted log (after_send now r (count_attempt log) s).0 log'
unfolding after_send as_sent
after_send-Attempted now i (accepted id request_id) log s key found =
    let log' : SmsLog = as_sent now id request_id (count_attempt log) in
    (log', log_of-save_log i log' s key, (refl, refl))
after_send-Attempted now i (thrown m) log s key found = (count_attempt log, found, refl)

handle-Attempted :
    (send : String → String → SendResult) (now : ℕ) (payload : SmsJobData) (log : SmsLog)
    (s : Outbox)
    → log_of payload.sms_log_id s ≡ some log
    → let (r, t) = handle_send_debt_reminder send now payload s in
      (log' : SmsLog) × (log_of payload.sms_log_id t ≡ some log') × Attempted log r log'
unfolding handle_send_debt_reminder attempt_log
handle-Attempted send now payload log s found =
    let key : log.id ≡ payload.sms_log_id =
      find_by_id-key sms_log_key payload.sms_log_id log s.logs found in
    rw found (
      after_send-Attempted now payload.sms_log_id (send payload.phone payload.message) log _ key
        (log_of-save_log payload.sms_log_id (count_attempt log) s key))

on_failed_last :
    (made : ℕ) (job : SmsJob) (why : String) (log : SmsLog) (t : Outbox)
    → job.attempts ≤ made
    → log_of job.payload.sms_log_id t ≡ some log
    → log_of job.payload.sms_log_id (on_failed made job why t) ≡ some (as_failed why log)
unfolding on_failed
on_failed_last made job why log t last found =
    let test : leb job.attempts made ≡ true = ground (arith, last) in
    rw test (
      find_by_id-update_by_id_self sms_log_key job.payload.sms_log_id (as_failed why) log t.logs
        (λ x. refl) found)

on_failed_early :
    (made : ℕ) (job : SmsJob) (why : String) (t : Outbox)
    → made < job.attempts
    → on_failed made job why t ≡ t
unfolding on_failed
on_failed_early made job why t early = ground arith

-- How a reminder ends after at most `left` more attempts.
abbrev pub EndsAs : SmsStatus → ℕ → ℕ → ℕ → Type 0
EndsAs SmsStatus.sent before left after = (before < after) × (after ≤ before + left)
EndsAs SmsStatus.failed before left after = after ≡ before + left
EndsAs _ before left after = ⊥

abbrev pub Settled : SmsJob → SmsLog → ℕ → Outbox → Type 0
Settled job log made t =
    (log' : SmsLog) × (log_of job.payload.sms_log_id t ≡ some log')
    × EndsAs log'.status log.attempts (job.attempts - made) log'.attempts

EndsAs-of_status :
    (st : SmsStatus) (n left m : ℕ)
    → st ≡ SmsStatus.sent
    → n < m
    → m ≤ n + left
    → EndsAs st n left m
EndsAs-of_status SmsStatus.sent n left m e lt le = (lt, le)
EndsAs-of_status SmsStatus.pending n left m e lt le = cc
EndsAs-of_status SmsStatus.delivered n left m e lt le = cc
EndsAs-of_status SmsStatus.failed n left m e lt le = cc

EndsAs-suc : (st : SmsStatus) (n left m : ℕ) → EndsAs st (n + 1) left m → EndsAs st n (left + 1) m
EndsAs-suc SmsStatus.sent n left m h = omega arith
EndsAs-suc SmsStatus.failed n left m h = omega arith
EndsAs-suc SmsStatus.pending n left m h = h
EndsAs-suc SmsStatus.delivered n left m h = h

ran-Attempted :
    (send : String → String → SendResult) (now : ℕ) (payload : SmsJobData) (log : SmsLog)
    (s t : Outbox) (r : Option String)
    → handle_send_debt_reminder send now payload s ≡ (r, t)
    → log_of payload.sms_log_id s ≡ some log
    → (log' : SmsLog) × (log_of payload.sms_log_id t ≡ some log') × Attempted log r log'
ran-Attempted send now payload log s t r ran found =
    subst
      (λ (p : Option String × Outbox).
        (log' : SmsLog) × (log_of payload.sms_log_id p.1 ≡ some log') × Attempted log p.0 log')
      ran (handle-Attempted send now payload log s found)

answer-cases :
    (p : Option String × Outbox)
    → ((t : Outbox) × (p ≡ (none, t))) ⊎ ((why : String) × (t : Outbox) × (p ≡ (some why, t)))
answer-cases (none, t) = inl (t, refl)
answer-cases (some why, t) = inr (why, t, refl)

module _ (send : ℕ → String → String → SendResult) (now : ℕ) (job : SmsJob) where
  handled :
      (made : ℕ) (s : Outbox)
      → ((t : Outbox) × (handle_send_debt_reminder (send made) now job.payload s ≡ (none, t)))
        ⊎ ((why : String) × (t : Outbox) × (handle_send_debt_reminder (send made) now job.payload s
              ≡ (some why, t)))
  handled made s = answer-cases (handle_send_debt_reminder (send made) now job.payload s)

  Attempts-Settled :
      {made : ℕ} {s t : Outbox} (log : SmsLog)
      → Attempts send now job made s t
      → made < job.attempts
      → log_of job.payload.sms_log_id s ≡ some log
      → Settled job log made t
  Attempts-Settled log (done {made} {s} {t} ran) early found =
      let (log', here, both) = ran-Attempted (send made) now job.payload log s t none ran found in
      (
        log',
        here,
        EndsAs-of_status log'.status log.attempts (job.attempts - made) log'.attempts both.0
            (omega arith) (omega arith),
      )
  Attempts-Settled log (again {made} {s} {t} {u} why ran more rest) early found =
      let (log', here, same) =
        ran-Attempted (send made) now job.payload log s t (some why) ran found in
      let there : log_of job.payload.sms_log_id (on_failed (suc made) job why t)
          ≡ some (count_attempt log) =
        rw (on_failed_early (suc made) job why t more) (here ∙ ap some same) in
      let (end, at_end, ends) = Attempts-Settled (count_attempt log) rest more there in
      (
        end,
        at_end,
        subst (λ k. EndsAs end.status log.attempts k end.attempts)
            (let e : job.attempts - suc made + 1 ≡ job.attempts - made = omega arith in e)
            (EndsAs-suc end.status log.attempts (job.attempts - suc made) end.attempts ends),
      )
  Attempts-Settled log (exhausted {made} {s} {t} why ran last) early found =
      let (log', here, same) =
        ran-Attempted (send made) now job.payload log s t (some why) ran found in
      (
        as_failed why (count_attempt log),
        on_failed_last (suc made) job why (count_attempt log) t last (here ∙ ap some same),
        omega arith,
      )

  -- A run of the job from `made` attempts on, where `left` more are allowed.
  runs :
      (left made : ℕ) (s : Outbox)
      → made + suc left ≡ job.attempts
      → (t : Outbox) × Attempts send now job made s t
  runs zero made s e = elim (handled made s) [
    | inl (t, ran) ↦ (t, done ran)
    | inr (why, t, threw) ↦ (on_failed (suc made) job why t, exhausted why threw (omega arith))
  ]
  runs (suc left) made s e = elim (handled made s) [
    | inl (t, ran) ↦ (t, done ran)
    | inr (why, t, threw) ↦
        let (u, rest) = runs left (suc made) (on_failed (suc made) job why t) (omega arith) in
        (u, again why threw (omega arith) rest)
  ]

  -- Whatever the provider does at each attempt, the attempts at a job that may be made at least once come to an end, and the reminder is then sent, with at least one more attempt counted and at most `attempts` more, or failed, with exactly `attempts` more counted.
  pub job_settles :
      (log : SmsLog) (s : Outbox)
      → 1 ≤ job.attempts
      → log_of job.payload.sms_log_id s ≡ some log
      → (t : Outbox) × Attempts send now job 0 s t × Settled job log 0 t
  job_settles log s some_try found =
      let (t, run) = runs (job.attempts - 1) 0 s (omega arith) in
      (t, run, Attempts-Settled log run (omega arith) found)
