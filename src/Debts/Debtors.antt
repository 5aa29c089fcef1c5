-- ===== src/Debts/Debtors.antt =====
-- The list of debtors and the reminders name the same sums: debts.service.ts and sms.service.ts.
use salepoint_backend.Prelude.{
  ℕ, ◌≡◌, ◌⊎◌, sym, ap, sum_by, sum_by-filter_by, refl, ◌∙◌, inl, inr, Bool, true, ◌&&◌, Option,
  some, All-mono, List, [], ◌∷◌, map, String, arith, ◌==◌, All, All-take, All-drop, Bool-cases,
  Option-cases, filter_by,
}
use salepoint_backend.Prelude.Table.{find_by_id, find_by_id-key}
use salepoint_backend.Pagination.{PaginationQuery, paginate, skip}
use salepoint_backend.Entities.{Debt, Customer, customer_key, is_unpaid}
use salepoint_backend.Database.{Db}
use salepoint_backend.Reports.{Group, group_by, by_sum_descending}
use salepoint_backend.Reports.Grouping.{All-order_by}
use salepoint_backend.Reports.Ordered.{sum_of_key, group_by-AllExact}
use salepoint_backend.Sms.Reminders.{owed, Outcome, send_debt_reminder-Outcome}
use salepoint_backend.Sms.{
  Outbox, log_of, send_debt_reminder, new_log, digits_of, build_reminder_message, shop_name,
  is_outstanding,
}
use salepoint_backend.Exec.{Result, ok, err, no_phone}
use salepoint_backend.Debts.Summary.{
  DebtorSummary, Joined, join, is_summed, debtor_groups, debtor_row, get_debtors_summary,
}

-- The foreign key of a debt's customer holds.
abbrev pub IsKnown : List Customer → Debt → Type 0
IsKnown cs d =
    (i : ℕ) → d.customer_id ≡ some i → (c : Customer) × (find_by_id customer_key i cs ≡ some c)

abbrev pub every_name : String → Bool
every_name s = true

abbrev remaining_of : ℕ → ℕ → List Joined → ℕ
remaining_of shop_id k js =
    sum_of_key (λ j. j.customer.id) (λ j. j.debt.remaining_amount)
      (filter_by (is_summed every_name shop_id) js) k

joined-eq-owed :
    (shop_id k : ℕ) (cs : List Customer) (ds : List Debt)
    → All (IsKnown cs) ds
    → remaining_of shop_id k (join cs ds) ≡ owed k shop_id ds
unfolding join
joined-eq-owed shop_id k cs [] known = refl
joined-eq-owed shop_id k cs (d ∷ ds) known =
    let rest = joined-eq-owed shop_id k cs ds known.1 in
    elim (Option-cases d.customer_id) [
      | inl nobody ↦ rw nobody (omega (arith, rest))
      | inr (i, somebody) ↦
          let (c, found) = known.0 i somebody in
          let key : c.id ≡ i = find_by_id-key customer_key i c cs found in
          rw somebody (
            rw found (elim (Bool-cases ((d.shop_id == shop_id) && is_unpaid d.status)) [
              | inl counted ↦ ground (arith, rest, key, counted)
              | inr left ↦ ground (arith, rest, key, left)
            ]))
    ]

All-map {ℓ κ} :
    {A B : Type 0} (P : B → Type ℓ) (Q : A → Type κ) (f : A → B) (xs : List A)
    → ((x : A) → Q x → P (f x))
    → All Q xs
    → All P (map f xs)
All-map P Q f [] step h = tt
All-map P Q f (x ∷ xs) step h = (step x h.0, All-map P Q f xs step h.1)

-- The sum beside a customer is what the customer owes the shop.
get_debtors_summary-AllOwed :
    (created_at : ℕ → ℕ) (total shop_id : ℕ) (q : PaginationQuery) (db : Db)
    → All (IsKnown db.customers) db.debts
    → All
        (λ r. r.total_remaining ≡ owed r.customer_id shop_id db.debts)
        (get_debtors_summary created_at every_name total shop_id q db).items
unfolding get_debtors_summary debtor_groups debtor_row paginate
get_debtors_summary-AllOwed created_at total shop_id q db known =
    let summed = filter_by (is_summed every_name shop_id) (join db.customers db.debts) in
    let customer = λ (j : Joined). j.customer.id in
    let amount = λ (j : Joined). j.debt.remaining_amount in
    let exact =
      All-order_by by_sum_descending
        (λ (g : Group ℕ). g.sum ≡ sum_of_key customer amount summed g.key)
        (group_by ◌==◌ customer amount summed) (group_by-AllExact customer amount summed) in
    let page =
      All-take (λ (g : Group ℕ). g.sum ≡ sum_of_key customer amount summed g.key) q.limit _
        (All-drop (λ (g : Group ℕ). g.sum ≡ sum_of_key customer amount summed g.key) (skip q) _
          exact) in
    All-map (λ (r : DebtorSummary). r.total_remaining ≡ owed r.customer_id shop_id db.debts)
      (λ (g : Group ℕ). g.sum ≡ sum_of_key customer amount summed g.key)
      (debtor_row created_at every_name shop_id db) _
      (λ g e. e ∙ joined-eq-owed shop_id g.key db.customers db.debts known) page

-- A reminder that is sent names the sum of the row in the stored message; one that is refused changes nothing, and is refused for want of a phone unless the sum of the row is zero.
abbrev pub Names :
    (ℕ → String) → ℕ → ℕ → Option ℕ → Outbox → DebtorSummary → Result ℕ → Outbox → Type 0
Names format now shop_id by s r (err e) t = (t ≡ s) × ((r.total_remaining ≡ 0) ⊎ (e ≡ no_phone))
Names format now shop_id by s r (ok id) t =
    (c : Customer) × (phone : String) × (log_of id t
      ≡ some (
          new_log id now shop_id by r.customer_id (digits_of phone)
            (build_reminder_message format c.name r.total_remaining (shop_name shop_id s))))

abbrev pub IsNamedIn : (ℕ → String) → ℕ → ℕ → Option ℕ → Outbox → DebtorSummary → Type 0
IsNamedIn format now shop_id by s r =
    let (answer, t) = send_debt_reminder format now r.customer_id shop_id by s in
    Names format now shop_id by s r answer t

named_by :
    (format : ℕ → String) (now shop_id : ℕ) (by : Option ℕ) (s : Outbox) (r : DebtorSummary)
    (answer : Result ℕ) (t : Outbox)
    → r.total_remaining ≡ owed r.customer_id shop_id s.db.debts
    → Outcome format now r.customer_id shop_id by s answer t
    → Names format now shop_id by s r answer t
named_by format now shop_id by s r (err e) t sum (same, inl (absent, clear)) = (
  same,
  inl (
      sum
      ∙ sym (
          sum_by-filter_by (λ (d : Debt). d.remaining_amount) (is_outstanding r.customer_id shop_id)
            s.db.debts)
      ∙ ap (sum_by (λ (d : Debt). d.remaining_amount)) clear),
)
named_by format now shop_id by s r (err e) t sum (same, inr (absent, why)) = (same, inr absent)
named_by format now shop_id by s r (ok id) t sum (d, c, phone, owes, known, given, queued) =
    (c, phone, rw sum queued.0)

named :
    (format : ℕ → String) (now shop_id : ℕ) (by : Option ℕ) (s : Outbox) (r : DebtorSummary)
    → r.total_remaining ≡ owed r.customer_id shop_id s.db.debts
    → IsNamedIn format now shop_id by s r
named format now shop_id by s r sum =
    let (answer, t) = send_debt_reminder format now r.customer_id shop_id by s in
    named_by format now shop_id by s r answer t sum
      (send_debt_reminder-Outcome format now r.customer_id shop_id by s)

-- Where every debt names a customer that exists: on every page of the unfiltered list of debtors, for each row, a reminder from the same shop to the customer of the row either is sent and its stored message names the sum of the row, or is refused with nothing changed, and then with 400 for want of a phone unless the sum of the row is zero.
pub get_debtors_summary-AllNamed :
    (created_at : ℕ → ℕ) (total : ℕ) (q : PaginationQuery) (format : ℕ → String) (now shop_id : ℕ)
    (by : Option ℕ) (s : Outbox)
    → All (IsKnown s.db.customers) s.db.debts
    → All
        (IsNamedIn format now shop_id by s)
        (get_debtors_summary created_at every_name total shop_id q s.db).items
get_debtors_summary-AllNamed created_at total q format now shop_id by s known =
    All-mono (named format now shop_id by s) _
      (get_debtors_summary-AllOwed created_at total shop_id q s.db known)
