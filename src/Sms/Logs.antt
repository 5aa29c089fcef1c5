-- ===== src/Sms/Logs.antt =====
-- What the page of reminders shows, and to whom: sms.service.ts and sms.controller.ts.
use salepoint_backend.Prelude.{
  ℕ, ◌+◌, ◌≡◌, refl, ap, subst, ◌&&◌, ◌||◌, Bool, true, false, inl, inr, Option, none, some, List,
  [], ◌∷◌, arith, All, All-mono, All-take, All-drop, filter_by-All, count_by, ==→eq, if◌then◌else◌,
}
use salepoint_backend.Exec.{ok, Result-cases}
use salepoint_backend.Accounts.{UserRole, has_role}
use salepoint_backend.Pagination.{paginate, skip}
use salepoint_backend.Sms.Defs.{
  SmsStatus, pending, sent, delivered, failed, same_status, SmsLog, is_id,
}
use salepoint_backend.Sms.Listing.{
  SmsLogQuery, SmsLogPage, ByStatus, UserParam, absent, whole_shop, user, is_counted, is_listed,
  in_status, count_status, find_logs, listed_user, list_logs,
}

abbrev pub of_status : SmsStatus → ByStatus → ℕ
of_status pending b = b.pending
of_status sent b = b.sent
of_status delivered b = b.delivered
of_status failed b = b.failed

-- The total that the counts of the four states give for the status of the query.
abbrev pub total_by_status : Option SmsStatus → ByStatus → ℕ
total_by_status none b = b.pending + b.sent + b.delivered + b.failed
total_by_status (some st) b = of_status st b

once :
    (b : Bool) (st : SmsStatus)
    → ◌≡◌ {A = ℕ} (if b && true then 1 else 0) (
        (if b && same_status st pending then 1 else 0)
        + (if b && same_status st sent then 1 else 0)
        + (if b && same_status st delivered then 1 else 0)
        + (if b && same_status st failed then 1 else 0))
once false st = refl
once true pending = refl
once true sent = refl
once true delivered = refl
once true failed = refl

counted_once :
    (p : SmsLog → Bool) (logs : List SmsLog)
    → count_by (λ l. p l && true) logs
      ≡ count_by (λ l. p l && same_status l.status pending) logs
        + count_by (λ l. p l && same_status l.status sent) logs
        + count_by (λ l. p l && same_status l.status delivered) logs
        + count_by (λ l. p l && same_status l.status failed) logs
counted_once p [] = omega arith
counted_once p (l ∷ logs) = omega (arith, once (p l) l.status, counted_once p logs)

abbrev pub sees_whole_shop : List UserRole → Bool
sees_whole_shop roles = has_role UserRole.shop_owner roles || has_role UserRole.admin roles

abbrev pub IsVisible : ℕ → List UserRole → ℕ → SmsLog → Type 0
IsVisible shop_id roles me l =
    (l.shop_id ≡ shop_id) × (sees_whole_shop roles ≡ false → l.sent_by_user_id ≡ some me)

is_id→some : (i : ℕ) (o : Option ℕ) → is_id i o ≡ true → o ≡ some i
is_id→some i none e = cc
is_id→some i (some j) e = ap some (==→eq j i e)

listed_user_self :
    (roles : List UserRole) (me : ℕ) (param : UserParam) (u : Option ℕ)
    → listed_user roles me param ≡ ok u
    → sees_whole_shop roles ≡ false
    → u ≡ some me
unfolding listed_user
listed_user_self roles me absent u e junior = ground arith
listed_user_self roles me whole_shop u e junior = ground arith
listed_user_self roles me (user v) u e junior = ground arith

is_listed-IsVisible :
    (shop_id : ℕ) (roles : List UserRole) (me : ℕ) (q : SmsLogQuery) (l : SmsLog)
    → (sees_whole_shop roles ≡ false → q.user_id ≡ some me)
    → is_listed shop_id q l ≡ true
    → IsVisible shop_id roles me l
unfolding is_listed is_counted
is_listed-IsVisible shop_id roles me q l own e =
    (ground arith, λ junior. is_id→some me l.sent_by_user_id (ground (arith, own junior)))

-- The total of a listing without a status is the sum of the four counts, and with a status it is the count of that status.
pub find_logs_totals :
    (order : List SmsLog → List SmsLog) (shop_id : ℕ) (q : SmsLogQuery) (logs : List SmsLog)
    → let page = find_logs order shop_id q logs in
      (page.all ≡ total_by_status q.status page.by_status) × (page.page.info.total ≡ page.all)
unfolding find_logs is_listed count_status paginate
find_logs_totals order shop_id q logs = (totals q.status, refl)
  where
    totals :
        (st : Option SmsStatus)
        → count_by (λ l. is_counted shop_id q l && in_status st l.status) logs
          ≡ total_by_status st (find_logs order shop_id q logs).by_status
    totals none = counted_once (is_counted shop_id q) logs
    totals (some pending) = refl
    totals (some sent) = refl
    totals (some delivered) = refl
    totals (some failed) = refl

listed-AllVisible :
    (order : List SmsLog → List SmsLog) (shop_id : ℕ) (roles : List UserRole) (me : ℕ)
    (q : SmsLogQuery) (logs : List SmsLog)
    → ((P : SmsLog → Type 0) (xs : List SmsLog) → All P xs → All P (order xs))
    → (sees_whole_shop roles ≡ false → q.user_id ≡ some me)
    → All (IsVisible shop_id roles me) (find_logs order shop_id q logs).page.items
unfolding find_logs paginate
listed-AllVisible order shop_id roles me q logs keeps own =
    All-take (IsVisible shop_id roles me) q.page.limit _ (
      All-drop (IsVisible shop_id roles me) (skip q.page) _ (
        keeps (IsVisible shop_id roles me) _ (
          All-mono (λ l. is_listed-IsVisible shop_id roles me q l own) _
            (filter_by-All (is_listed shop_id q) logs))))

-- Where sorting drops and adds no row: a page of reminders shows only rows of the caller's shop, and to a caller who is neither owner nor admin only those that the caller sent.
pub list_logs-AllVisible :
    (order : List SmsLog → List SmsLog) (shop_id : ℕ) (roles : List UserRole) (me : ℕ)
    (param : UserParam) (q : SmsLogQuery) (logs : List SmsLog) (page : SmsLogPage)
    → ((P : SmsLog → Type 0) (xs : List SmsLog) → All P xs → All P (order xs))
    → list_logs order (some shop_id) roles me param q logs ≡ ok page
    → All (IsVisible shop_id roles me) page.page.items
unfolding list_logs
list_logs-AllVisible order shop_id roles me param q logs page keeps listed =
    elim (Result-cases (listed_user roles me param)) [
      | inr (e, refused) ↦ absurd (ground (arith, rw refused at listed))
      | inl (u, scope) ↦
          let q' : SmsLogQuery = record q { user_id = u } in
          let same : find_logs order shop_id q' logs ≡ page = ground (arith, rw scope at listed) in
          subst (λ (p : SmsLogPage). All (IsVisible shop_id roles me) p.page.items) same
            (listed-AllVisible order shop_id roles me q' logs keeps
              (listed_user_self roles me param u scope))
    ]
