-- ===== src/Reports/Defs.antt =====
-- GROUP BY and ORDER BY of the reports (reports.service.ts), over lists of rows.
use salepoint_backend.Prelude.{ℕ, ◌+◌, Bool, List, [], ◌∷◌, if◌then◌else◌, leb}

-- A group: its key, a sum and COUNT.
pub record Group (K : Type 0) : Type 0 where
  pub key : K
  pub sum : ℕ
  pub count : ℕ

module _ {K : Type 0} (same : K → K → Bool) where
  unfoldable pub add_row : K → ℕ → List (Group K) → List (Group K)
  add_row k a [] = record { key = k; sum = a; count = 1 } ∷ []
  add_row k a (g ∷ gs) =
      if same g.key k
      then record g { sum = g.sum + a; count = g.count + 1 } ∷ gs
      else g ∷ add_row k a gs

  unfoldable pub group_by : {A : Type 0} → (A → K) → (A → ℕ) → List A → List (Group K)
  unfolding add_row
  group_by key amount [] = []
  group_by key amount (x ∷ xs) = add_row (key x) (amount x) (group_by key amount xs)

module _ {A : Type 0} (before : A → A → Bool) where
  -- ORDER BY: equal rows in any order.
  unfoldable pub insert_row : A → List A → List A
  insert_row x [] = x ∷ []
  insert_row x (y ∷ ys) = if before x y then x ∷ y ∷ ys else y ∷ insert_row x ys

  unfoldable pub order_by : List A → List A
  unfolding insert_row
  order_by [] = []
  order_by (x ∷ xs) = insert_row x (order_by xs)

abbrev pub ascending : {K : Type 0} → (K → ℕ) → Group K → Group K → Bool
ascending rank g h = leb (rank g.key) (rank h.key)

abbrev pub by_sum_descending : {K : Type 0} → Group K → Group K → Bool
by_sum_descending g h = leb h.sum g.sum
