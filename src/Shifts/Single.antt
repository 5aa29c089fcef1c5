-- ===== src/Shifts/Single.antt =====
-- The open shifts of a cashier in a shop.
use salepoint_backend.Prelude.{
  ℕ, ◌+◌, ◌≤◌, ◌==◌, ==→eq, ◌≡◌, refl, sym, subst, Bool, true, false, not, ◌&&◌, if◌then◌else◌,
  none, some, List, [], ◌∷◌, arith, inl, inr, Bool-cases, Option-cases, find_first, count_by,
}
use salepoint_backend.Prelude.Table.{
  IsKeyed, IsBelow, save, find_by_id, save-IsKeyed, save-IsBelow, IsBelow-mono, find_by_id-IsBelow,
  find_by_id-find_first, find_first-IsBelow,
}
use salepoint_backend.Entities.{Shift, shift_key}
use salepoint_backend.Database.{Db, shift_of, scoped}
use salepoint_backend.Shifts.{
  OpenShiftDto, CloseShiftDto, is_open, is_active, get_active_shift, new_shift, open_shift,
  closed_with, close_shift,
}

-- The shifts have keys that are unique and below the next one, and no cashier has two open shifts in a shop.
pub record IsSingle (db : Db) : Type 0 where
  pub keyed : IsKeyed shift_key db.shifts
  pub below : IsBelow shift_key db.next_id db.shifts
  pub single : (shop cashier : ℕ) → count_by (is_active shop cashier) db.shifts ≤ 1

count-save_new :
    (p : Shift → Bool) (a : Shift) (xs : List Shift)
    → find_by_id shift_key a.id xs ≡ none
    → count_by p (save shift_key a xs) ≡ count_by p xs + (if p a then 1 else 0)
count-save_new p a [] e = ground arith
count-save_new p a (x ∷ xs) e = ground (arith, count-save_new p a xs)

count-save_shut :
    (p : Shift → Bool) (a b : Shift) (xs : List Shift)
    → find_by_id shift_key a.id xs ≡ some b
    → p a ≡ false
    → count_by p (save shift_key a xs) ≤ count_by p xs
count-save_shut p a b [] e h = cc
count-save_shut p a b (x ∷ xs) e h = ground (arith, count-save_shut p a b xs)

count-none : (p : Shift → Bool) (xs : List Shift) → find_first p xs ≡ none → count_by p xs ≡ 0
count-none p [] e = refl
count-none p (x ∷ xs) e = ground (arith, count-none p xs)

none_before :
    (shop cashier : ℕ) (a : Shift) (db : Db)
    → is_active shop cashier a ≡ true
    → get_active_shift a.cashier_id a.shop_id db ≡ none
    → count_by (is_active shop cashier) db.shifts ≡ 0
unfolding get_active_shift
none_before shop cashier a db same free =
    let of_shop : a.shop_id ≡ shop = ==→eq a.shop_id shop (ground arith) in
    let of_cashier : a.cashier_id ≡ cashier = ==→eq a.cashier_id cashier (ground arith) in
    count-none (is_active shop cashier) db.shifts (rw (← of_shop) (rw (← of_cashier) free))

-- A new open shift of a cashier who has none.
opened_one :
    (a : Shift) (db : Db)
    → IsSingle db
    → a.id ≡ db.next_id
    → get_active_shift a.cashier_id a.shop_id db ≡ none
    → IsSingle (record db { shifts = save shift_key a db.shifts; next_id = db.next_id + 1 })
unfolding get_active_shift
opened_one a db h fresh free =
    let unseen : find_by_id shift_key a.id db.shifts ≡ none =
      subst (λ k. find_by_id shift_key k db.shifts ≡ none) (sym fresh)
        (find_by_id-IsBelow shift_key db.next_id db.shifts h.below) in
    record {
      keyed = save-IsKeyed shift_key a db.shifts h.keyed;
      below =
          save-IsBelow shift_key (db.next_id + 1) a db.shifts (omega arith)
            (IsBelow-mono shift_key db.next_id (db.next_id + 1) db.shifts (omega arith) h.below);
      single = λ shop cashier.
          rw (count-save_new (is_active shop cashier) a db.shifts unseen)
            (elim (Bool-cases (is_active shop cashier a)) [
              | inl same ↦ rw same (omega (arith, none_before shop cashier a db same free))
              | inr other ↦ rw other (omega (arith, h.single shop cashier))
            ]);
    }

-- A shift of the table that is closed.
shut_one :
    (dto : CloseShiftDto) (now : ℕ) (s : Shift) (i shop : ℕ) (db : Db)
    → IsSingle db
    → shift_of i (some shop) db ≡ some s
    → IsSingle (record db { shifts = save shift_key (closed_with dto now s) db.shifts })
unfolding closed_with
shut_one dto now s i shop db h found = record {
  keyed = save-IsKeyed shift_key (closed_with dto now s) db.shifts h.keyed;
  below =
      save-IsBelow shift_key db.next_id (closed_with dto now s) db.shifts
        (find_first-IsBelow shift_key db.next_id (λ x. x.id == i && scoped (some shop) x.shop_id)
          db.shifts s h.below found)
        h.below;
  single = λ a b. omega (
    arith,
    h.single a b,
    count-save_shut (is_active a b) (closed_with dto now s) s db.shifts
        (find_by_id-find_first shift_key (λ x. x.id == i && scoped (some shop) x.shop_id) db.shifts
          s h.keyed found)
        (ground arith),
  );
}

-- Where no cashier has two open shifts in a shop, and the keys of the shifts are unique and below the next one, `open` keeps this so, whether it returns or refuses.
pub open_shift-IsSingle :
    (dto : OpenShiftDto) (cashier shop now : ℕ) (db : Db)
    → IsSingle db
    → IsSingle (open_shift dto cashier shop now db).1
unfolding open_shift
open_shift-IsSingle dto cashier shop now db h =
    elim (Option-cases (get_active_shift cashier shop db)) [
      | inl free ↦ rw free (opened_one (new_shift dto cashier shop now db.next_id) db h refl free)
      | inr (s, taken) ↦ rw taken h
    ]

-- `close` keeps it, whether it returns or refuses.
close_shift-IsSingle :
    (i : ℕ) (dto : CloseShiftDto) (cashier shop now : ℕ) (db : Db)
    → IsSingle db
    → IsSingle (close_shift i dto cashier shop now db).1
unfolding close_shift
close_shift-IsSingle i dto cashier shop now db h = elim (Option-cases (shift_of i (some shop) db)) [
  | inl missing ↦ rw missing h
  | inr (s, found) ↦ rw found (elim (Bool-cases (not (s.cashier_id == cashier))) [
    | inl foreign ↦ rw foreign h
    | inr own ↦ rw own (elim (Bool-cases (not (is_open s.status))) [
      | inl shut ↦ rw shut h
      | inr still ↦ rw still (shut_one dto now s i shop db h found)
    ])
  ])
]
