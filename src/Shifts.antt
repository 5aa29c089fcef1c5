-- ===== src/Shifts.antt =====
-- modules/shifts/shifts.service.ts
pub mod Single
pub mod Listing
use salepoint_backend.Prelude.{
  ℕ, ◌+◌, Bool, true, false, ◌&&◌, not, Option, none, some, String, ◌==◌, if◌then◌else◌, find_first,
}
use salepoint_backend.Exec.{
  Exec, ok, pure, gets, or_raise, raise_if, modify, ◌>>=◌, ◌>>◌, shift_already_open,
  shift_not_found, not_own_shift, shift_already_closed,
}
use salepoint_backend.Decimal.{to_fixed}
use salepoint_backend.Entities.{Shift, ShiftStatus, opened, closed}
use salepoint_backend.Database.{Db, shift_of, save_shift, fresh_id}

-- The floats are in billionths: the validators do not limit their decimals.
pub record OpenShiftDto : Type 0 where
  pub opening_float : ℕ
  pub notes : Option String

pub record CloseShiftDto : Type 0 where
  pub closing_float : ℕ
  pub notes : Option String

abbrev pub is_open : ShiftStatus → Bool
is_open opened = true
is_open closed = false

-- `where: { shopId, cashierId, status: OPEN }`
abbrev pub is_active : ℕ → ℕ → Shift → Bool
is_active shop_id cashier_id s =
    s.shop_id == shop_id && s.cashier_id == cashier_id && is_open s.status

unfoldable pub get_active_shift : ℕ → ℕ → Db → Option Shift
get_active_shift cashier_id shop_id db = find_first (is_active shop_id cashier_id) db.shifts

abbrev pub is_given : Option Shift → Bool
is_given none = false
is_given (some s) = true

-- `shiftRepo.create(…)`, with the columns' defaults.
unfoldable pub new_shift : OpenShiftDto → ℕ → ℕ → ℕ → ℕ → Shift
unfolding to_fixed
new_shift dto cashier_id shop_id now id = record {
  id = id;
  shop_id = shop_id;
  cashier_id = cashier_id;
  status = opened;
  opening_float = to_fixed dto.opening_float;
  closing_float = none;
  cash_sales = 0;
  card_sales = 0;
  total_sales = 0;
  order_count = 0;
  opened_at = now;
  closed_at = none;
  notes = dto.notes;
}

unfoldable pub open_shift : OpenShiftDto → ℕ → ℕ → ℕ → Exec Db Shift
unfolding get_active_shift new_shift
open_shift dto cashier_id shop_id now = do
  existing ← gets (get_active_shift cashier_id shop_id)
  raise_if (is_given existing) shift_already_open
  id ← fresh_id
  modify (save_shift (new_shift dto cashier_id shop_id now id))
  pure (new_shift dto cashier_id shop_id now id)

-- `dto.notes ?? shift.notes`
abbrev pub or_notes : Option String → Option String → Option String
or_notes none old = old
or_notes (some new) old = some new

unfoldable pub closed_with : CloseShiftDto → ℕ → Shift → Shift
unfolding to_fixed
closed_with dto now s = record s {
  closing_float = some (to_fixed dto.closing_float);
  closed_at = some now;
  status = closed;
  notes = or_notes dto.notes s.notes;
}

unfoldable pub close_shift : ℕ → CloseShiftDto → ℕ → ℕ → ℕ → Exec Db Shift
unfolding closed_with
close_shift i dto cashier_id shop_id now = do
  shift ← or_raise (← gets (shift_of i (some shop_id))) shift_not_found
  raise_if (not (shift.cashier_id == cashier_id)) not_own_shift
  raise_if (not (is_open shift.status)) shift_already_closed
  modify (save_shift (closed_with dto now shift))
  pure (closed_with dto now shift)
