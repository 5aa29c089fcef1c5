-- ===== src/Sms/Reminders.antt =====
-- What `sendDebtReminder` leaves on each branch: sms.service.ts.
use mathlib.Core.List as Lists
use salepoint_backend.Prelude.{
  ℕ, ◌≡◌, ◌≢◌, refl, ◌⊎◌, inl, inr, Option, none, some, List, [], ◌∷◌, String, Option-cases, sum_by,
  sum_by-filter_by, if◌then◌else◌,
}
use salepoint_backend.Prelude.Table.{find_by_id-save_self, find_by_id-save_ne}
use salepoint_backend.Exec.{Result, ok, err, no_outstanding_debts, no_phone}
use salepoint_backend.Entities.{Customer, Debt}
use salepoint_backend.Sms.Defs.{
  Outbox, sms_log_key, log_of, outstanding, is_outstanding, customer_row,
}
use salepoint_backend.Sms.Service.{
  first, filled, send_debt_reminder, queue_reminder, new_log, digits_of, build_reminder_message,
  shop_name,
}

-- What a customer owes a shop: the remaining amounts of the debts that are not paid.
abbrev pub owed : ℕ → ℕ → List Debt → ℕ
owed customer_id shop_id =
    sum_by (λ d. if is_outstanding customer_id shop_id d then d.remaining_amount else 0)

module _ (format : ℕ → String) (now customer_id shop_id : ℕ) (by : Option ℕ) (s : Outbox) where
  -- The row and the job of a reminder to `c` at the number `phone`.
  abbrev pub IsQueued : Customer → String → ℕ → Outbox → Type 0
  IsQueued c phone id t =
      let message =
        build_reminder_message format c.name (owed customer_id shop_id s.db.debts)
          (shop_name shop_id s) in
      (log_of id t ≡ some (new_log id now shop_id by customer_id (digits_of phone) message))
      × ((j : ℕ) → id ≢ j → log_of j t ≡ log_of j s)
      × (t.jobs
          ≡ Lists.◌++◌ s.jobs (
              record {
                payload = record { sms_log_id = id; phone = digits_of phone; message = message };
                attempts = 3;
              }
              ∷ []))

  -- The debtor is missing, or has no phone.
  abbrev pub HasNoPhone : Option Customer → Type 0
  HasNoPhone none = Unit
  HasNoPhone (some c) = filled c.phone ≡ none

  abbrev pub Outcome : Result ℕ → Outbox → Type 0
  Outcome (err e) t =
      (t ≡ s)
      × (((e ≡ no_outstanding_debts) × (outstanding customer_id shop_id s ≡ []))
          ⊎ ((e ≡ no_phone)
              × ((d : Debt) × (first (outstanding customer_id shop_id s) ≡ some d)
                  × HasNoPhone (customer_row d.customer_id s))))
  Outcome (ok id) t =
      (d : Debt) × (c : Customer) × (phone : String) × (first (outstanding customer_id shop_id s)
        ≡ some d)
      × (customer_row d.customer_id s ≡ some c)
      × (filled c.phone ≡ some phone)
      × IsQueued c phone id t

  queue_reminder-IsQueued :
      (c : Customer) (phone message : String)
      → message
        ≡ build_reminder_message format c.name
            (owed customer_id shop_id s.db.debts)
            (shop_name shop_id s)
      → IsQueued c phone s.next_id
          (queue_reminder now shop_id by customer_id (digits_of phone) message s).1
  unfolding queue_reminder new_log
  queue_reminder-IsQueued c phone message e = rw (← e) (
    find_by_id-save_self sms_log_key
        (new_log s.next_id now shop_id by customer_id (digits_of phone) message) s.logs,
    λ j other.
        find_by_id-save_ne sms_log_key j
          (new_log s.next_id now shop_id by customer_id (digits_of phone) message) s.logs other,
    refl,
  )

  first-none : (ds : List Debt) → first ds ≡ none → ds ≡ []
  first-none [] e = refl
  first-none (d ∷ ds) e = cc

  -- A reminder is refused, with nothing written, with 404 exactly if the customer has no unpaid debt in the shop, and with 400 only if the debtor of the first of these debts has no phone; otherwise one pending row is added, and no other row changes, and one job of three attempts is queued, both with the digits of the phone and a message over the sum of the remaining amounts of the unpaid debts.
  pub send_debt_reminder-Outcome :
      let (r, t) = send_debt_reminder format now customer_id shop_id by s in Outcome r t
  unfolding send_debt_reminder
  send_debt_reminder-Outcome = elim (Option-cases (first (outstanding customer_id shop_id s))) [
    | inl paid ↦ rw paid (refl, inl (refl, first-none _ paid))
    | inr (d, owes) ↦ rw owes (elim (Option-cases (customer_row d.customer_id s)) [
      | inl missing ↦ rw missing (refl, inr (refl, (d, owes, rw missing tt)))
      | inr (c, known) ↦ rw known (elim (Option-cases (filled c.phone)) [
        | inl empty ↦ rw empty (refl, inr (refl, (d, owes, rw known empty)))
        | inr (phone, given) ↦ rw given (
          d,
          c,
          phone,
          owes,
          known,
          given,
          queue_reminder-IsQueued c phone _ (
              rw (
                sum_by-filter_by (λ (x : Debt). x.remaining_amount)
                  (is_outstanding customer_id shop_id) s.db.debts)),
        )
      ])
    ])
  ]
