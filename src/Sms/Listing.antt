-- ===== src/Sms/Listing.antt =====
-- `findLogs` of modules/sms/sms.service.ts and `listLogs` of sms.controller.ts.
use salepoint_backend.Prelude.{
  ℕ, Bool, true, not, ◌&&◌, ◌||◌, Option, none, some, List, ◌==◌, leb, filter_by, count_by, take,
  drop, if◌then◌else◌,
}
use salepoint_backend.Exec.{Result, ok, err, shop_scope_required, logs_not_allowed}
use salepoint_backend.Accounts.{UserRole, has_role}
use salepoint_backend.Pagination.{PaginationQuery, PaginatedResult, paginate, skip}
use salepoint_backend.Sms.Defs.{SmsStatus, same_status, SmsLog, is_id}

-- `SmsLogQueryDto`; an absent field is no condition.
pub record SmsLogQuery : Type 0 where
  pub user_id : Option ℕ
  pub status : Option SmsStatus
  pub from : Option ℕ
  pub to : Option ℕ
  pub page : PaginationQuery

pub record ByStatus : Type 0 where
  pub pending : ℕ
  pub sent : ℕ
  pub delivered : ℕ
  pub failed : ℕ

pub record SmsLogPage : Type 0 where
  pub page : PaginatedResult SmsLog
  pub all : ℕ
  pub by_status : ByStatus

abbrev sent_by : Option ℕ → Option ℕ → Bool
sent_by none _ = true
sent_by (some u) sender = is_id u sender

abbrev from_on : Option ℕ → ℕ → Bool
from_on none t = true
from_on (some a) t = leb a t

abbrev up_to : Option ℕ → ℕ → Bool
up_to none t = true
up_to (some b) t = leb t b

abbrev pub in_status : Option SmsStatus → SmsStatus → Bool
in_status none st = true
in_status (some wanted) st = same_status st wanted

-- The conditions of the query of counts; the query of rows has the status too.
unfoldable pub is_counted : ℕ → SmsLogQuery → SmsLog → Bool
is_counted shop_id q l =
    (l.shop_id == shop_id)
    && sent_by q.user_id l.sent_by_user_id
    && from_on q.from l.created_at
    && up_to q.to l.created_at

unfoldable pub is_listed : ℕ → SmsLogQuery → SmsLog → Bool
unfolding is_counted
is_listed shop_id q l = is_counted shop_id q l && in_status q.status l.status

-- `COUNT(*)` of the group of a status, and 0 where there is no such group.
unfoldable pub count_status : ℕ → SmsLogQuery → SmsStatus → List SmsLog → ℕ
unfolding is_counted
count_status shop_id q st = count_by (λ l. is_counted shop_id q l && same_status l.status st)

-- `order` is ORDER BY created_at DESC.
unfoldable pub find_logs : (List SmsLog → List SmsLog) → ℕ → SmsLogQuery → List SmsLog → SmsLogPage
unfolding is_listed count_status
find_logs order shop_id q logs =
    let found = filter_by (is_listed shop_id q) logs in
    let total = count_by (is_listed shop_id q) logs in
    record {
      page = paginate (take q.page.limit (drop (skip q.page) (order found))) total q.page;
      all = total;
      by_status = record {
        pending = count_status shop_id q SmsStatus.pending logs;
        sent = count_status shop_id q SmsStatus.sent logs;
        delivered = count_status shop_id q SmsStatus.delivered logs;
        failed = count_status shop_id q SmsStatus.failed logs;
      };
    }

-- The parameter `userId` of the request.
pub data UserParam : Type 0 where
  absent whole_shop : UserParam
  user : ℕ → UserParam

-- `query.userId` as the controller rewrites it for a caller of a shop.
unfoldable pub listed_user : List UserRole → ℕ → UserParam → Result (Option ℕ)
listed_user roles me absent = ok (some me)
listed_user roles me whole_shop =
    if has_role UserRole.shop_owner roles || has_role UserRole.admin roles
    then ok none
    else err logs_not_allowed
listed_user roles me (user u) =
    if not (has_role UserRole.shop_owner roles || has_role UserRole.admin roles) && not (u == me)
    then err logs_not_allowed
    else ok (some u)

abbrev with_scope : SmsLogQuery → Result (Option ℕ) → Result SmsLogQuery
with_scope q (err e) = err e
with_scope q (ok u) = ok (record q { user_id = u })

abbrev find_scoped :
    (List SmsLog → List SmsLog) → ℕ → Result SmsLogQuery → List SmsLog → Result SmsLogPage
find_scoped order shop_id (err e) logs = err e
find_scoped order shop_id (ok q) logs = ok (find_logs order shop_id q logs)

unfoldable pub list_logs :
    (List SmsLog → List SmsLog)
    → Option ℕ
    → List UserRole
    → ℕ
    → UserParam
    → SmsLogQuery
    → List SmsLog
    → Result SmsLogPage
unfolding listed_user find_logs
list_logs order none roles me param q logs = err shop_scope_required
list_logs order (some shop_id) roles me param q logs =
    find_scoped order shop_id (with_scope q (listed_user roles me param)) logs
