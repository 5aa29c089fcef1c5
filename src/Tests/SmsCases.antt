-- ===== src/Tests/SmsCases.antt =====
-- The theorems of the reminders and of the list of debtors at sample data.
use salepoint_backend.Prelude.{
  ℕ, zero, suc, ◌≡◌, refl, true, false, none, some, List, [], ◌∷◌, String, All, arith,
}
use salepoint_backend.Prelude.Table.{find_by_id}
use salepoint_backend.Exec.{ok}
use salepoint_backend.Accounts.{Shop, SubscriptionStatus, UserRole}
use salepoint_backend.Entities.{Customer, OrderStatus, customer_key}
use salepoint_backend.Database.{Db}
use salepoint_backend.Pagination.{PaginationQuery, paginate, skip}
use salepoint_backend.Debts.{get_debtors_summary}
use salepoint_backend.Debts.Debtors.{get_debtors_summary-AllNamed, IsNamedIn, every_name}
use salepoint_backend.Sms.{
  Outbox, SmsLog, SmsJob, SmsLogQuery, UserParam, SendResult, HttpReply, SmsConfig, dev_sms_send,
  send_debt_reminder, handle_send_debt_reminder, handle_callback, SmsCallbackDto, CallbackStatus,
  new_log, list_logs, find_logs,
}
use salepoint_backend.Sms.Reminders.{Outcome, send_debt_reminder-Outcome}
use salepoint_backend.Sms.Retries.{Attempts, Settled, job_settles}
use salepoint_backend.Sms.States.{AllTraced, Step, Reach, Reach-AllTraced}
use salepoint_backend.Sms.Logs.{IsVisible, list_logs-AllVisible}
use salepoint_backend.Tests.Samples.{db_with}

abbrev pub buyer : Customer
buyer = record {
  id = 5;
  shop_id = 1;
  name = "Ali";
  phone = some "+998 90-123";
  default_discount_type = none;
  default_discount_value = none;
  loyalty_points = 0;
  total_spent = 0;
  visit_count = 0;
  notes = none;
}

abbrev shop : Shop
shop = record {
  id = 1;
  name = "Bozor";
  subscription_status = SubscriptionStatus.active;
  subscription_expires_at = none;
  cashier_limit = none;
  deleted = false;
}

abbrev pub db : Db
db = record (db_with OrderStatus.confirmed) { customers = buyer ∷ [] }

abbrev outbox : Outbox
outbox = record { db = db; shops = shop ∷ []; logs = []; jobs = []; next_id = 50 }

-- A stand-in for the number format: every amount is one text.
abbrev amount : ℕ → String
amount n = "6,6"

send_debt_reminder-Outcome_example :
    let (r, t) = send_debt_reminder amount 1000 5 1 (some 2) outbox in
    Outcome amount 1000 5 1 (some 2) outbox r t
send_debt_reminder-Outcome_example = send_debt_reminder-Outcome amount 1000 5 1 (some 2) outbox

-- The digits of the phone are dialled.
reminded : (send_debt_reminder amount 1000 5 1 none outbox).0 ≡ ok 50
unfolding send_debt_reminder
reminded = refl

abbrev queued : Outbox
queued = record outbox { logs = new_log 50 1000 1 none 5 "99890123" "hello" ∷ [] }

abbrev job : SmsJob
job = record {
  payload = record { sms_log_id = 50; phone = "99890123"; message = "hello" };
  attempts = 3;
}

abbrev config : SmsConfig
config = record { token = "t"; from = "4546"; base_url = "b"; callback_url = "c" }

-- The provider is down at the first attempt and takes the message at the others.
abbrev provider : ℕ → String → String → SendResult
provider zero phone message =
    dev_sms_send (λ cfg p m. HttpReply.unreachable "timeout") config phone message
provider (suc n) phone message =
    dev_sms_send (λ cfg p m. HttpReply.answered true none 77 "r-1") config phone message

job_settles_example :
    (t : Outbox) × Attempts provider 2000 job 0 queued t
    × Settled job (new_log 50 1000 1 none 5 "99890123" "hello") 0 t
unfolding new_log
job_settles_example =
    job_settles provider 2000 job (new_log 50 1000 1 none 5 "99890123" "hello") queued (omega arith)
      refl

abbrev callback : SmsCallbackDto
callback = record {
  sms_id = 77;
  status = CallbackStatus.delivered;
  sent_at = none;
  delivered_at = some 3000;
  failed_at = none;
}

abbrev attempted : Outbox
attempted = (handle_send_debt_reminder (provider 1) 2000 job.payload queued).1

Reach-AllTraced_example : AllTraced (handle_callback callback attempted)
unfolding new_log
Reach-AllTraced_example =
    Reach-AllTraced {s = queued} {t = handle_callback callback attempted} (tt, tt)
      (Reach.next (Reach.next Reach.here (Step.attempt queued (provider 1) 2000 job.payload))
        (Step.callback attempted callback))

abbrev first_page : PaginationQuery
first_page = record { page = 1; limit = 10; search = none }

abbrev query : SmsLogQuery
query = record { user_id = none; status = none; from = none; to = none; page = first_page }

abbrev two_logs : List SmsLog
two_logs = new_log 50 1000 1 (some 2) 5 "1" "a" ∷ new_log 51 1000 1 (some 3) 5 "1" "b" ∷ []

abbrev query_of_2 : SmsLogQuery
query_of_2 = record query { user_id = some 2 }

list_logs-AllVisible_example :
    All
      (IsVisible 1 (UserRole.manager ∷ []) 2)
      (find_logs (λ xs. xs) 1 query_of_2 two_logs).page.items
unfolding list_logs
list_logs-AllVisible_example =
    list_logs-AllVisible (λ xs. xs) 1 (UserRole.manager ∷ []) 2 UserParam.absent query two_logs
      (find_logs (λ xs. xs) 1 query_of_2 two_logs) (λ P xs h. h) refl

every_debtor_known :
    (i : ℕ) → some 5 ≡ some i → (c : Customer) × (find_by_id customer_key i db.customers ≡ some c)
every_debtor_known i e = (buyer, ground (arith, e))

get_debtors_summary-AllNamed_example :
    All
      (IsNamedIn amount 1000 1 none outbox)
      (get_debtors_summary (λ i. 0) every_name 1 1 first_page outbox.db).items
get_debtors_summary-AllNamed_example =
    get_debtors_summary-AllNamed (λ i. 0) 1 first_page amount 1000 1 none outbox
      (every_debtor_known, tt)

-- The sample debt of 6.60.
summed :
    (get_debtors_summary (λ i. 0) every_name 1 1 first_page db).items
    ≡ record {
      customer_id = 5;
      customer_name = "Ali";
      phone = some "+998 90-123";
      total_remaining = 660;
      debt_count = 1;
      oldest_debt_at = 0;
    }
      ∷ []
unfolding get_debtors_summary paginate skip
summed = refl
