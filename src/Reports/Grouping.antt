-- ===== src/Reports/Grouping.antt =====
-- Sums over the groups of a report (reports.service.ts).
use salepoint_backend.Prelude.{
  ℕ, ◌+◌, ◌<◌, ◌≡◌, ◌≢◌, refl, sym, ◌∙◌, inl, inr, Bool, List, [], ◌∷◌, arith, ◌==◌, if◌then◌else◌,
  sum_by, length, All, Bool-cases,
}
use salepoint_backend.Reports.Defs.{Group, add_row, group_by, insert_row, order_by}

module _ {A : Type 0} (before : A → A → Bool) where
  sum_by-insert_row :
      (f : A → ℕ) (x : A) (ys : List A) → sum_by f (insert_row before x ys) ≡ f x + sum_by f ys
  unfolding insert_row
  sum_by-insert_row f x [] = refl
  sum_by-insert_row f x (y ∷ ys) = ground (arith, sum_by-insert_row f x ys)

  pub sum_by-order_by : (f : A → ℕ) (xs : List A) → sum_by f (order_by before xs) ≡ sum_by f xs
  unfolding order_by
  sum_by-order_by f [] = refl
  sum_by-order_by f (x ∷ xs) =
      sum_by-insert_row f x (order_by before xs) ∙ omega (arith, sum_by-order_by f xs)

  pub All-insert_row {κ} :
      (P : A → Type κ) (x : A) (ys : List A) → P x → All P ys → All P (insert_row before x ys)
  unfolding insert_row
  All-insert_row P x [] p ps = (p, tt)
  All-insert_row P x (y ∷ ys) p ps = elim (Bool-cases (before x y)) [
    | inl first ↦ rw first (p, ps)
    | inr later ↦ rw later (ps.0, All-insert_row P x ys p ps.1)
  ]

  pub All-order_by {κ} : (P : A → Type κ) (xs : List A) → All P xs → All P (order_by before xs)
  unfolding order_by
  All-order_by P [] h = tt
  All-order_by P (x ∷ xs) h = All-insert_row P x (order_by before xs) h.0 (All-order_by P xs h.1)

module _ {K : Type 0} (same : K → K → Bool) {A : Type 0} (key : A → K) (amount : A → ℕ) where
  sum-add_row :
      (k : K) (a : ℕ) (gs : List (Group K))
      → sum_by (λ (g : Group K). g.sum) (add_row same k a gs)
        ≡ sum_by (λ (g : Group K). g.sum) gs + a
  unfolding add_row
  sum-add_row k a [] = omega arith
  sum-add_row k a (g ∷ gs) = ground (arith, sum-add_row k a gs)

  count-add_row :
      (k : K) (a : ℕ) (gs : List (Group K))
      → sum_by (λ (g : Group K). g.count) (add_row same k a gs)
        ≡ sum_by (λ (g : Group K). g.count) gs + 1
  unfolding add_row
  count-add_row k a [] = omega arith
  count-add_row k a (g ∷ gs) = ground (arith, count-add_row k a gs)

  pub sum-group_by :
      (xs : List A)
      → sum_by (λ (g : Group K). g.sum) (group_by same key amount xs) ≡ sum_by amount xs
  unfolding group_by
  sum-group_by [] = refl
  sum-group_by (x ∷ xs) =
      sum-add_row (key x) (amount x) (group_by same key amount xs) ∙ omega (arith, sum-group_by xs)

  pub count-group_by :
      (xs : List A) → sum_by (λ (g : Group K). g.count) (group_by same key amount xs) ≡ length xs
  unfolding group_by
  count-group_by [] = refl
  count-group_by (x ∷ xs) =
      count-add_row (key x) (amount x) (group_by same key amount xs)
      ∙ omega (arith, count-group_by xs)

-- Groups by a number.
abbrev pub Groups : Type 0
Groups = List (Group ℕ)

-- No group has the key `k`.
abbrev pub IsAbsent : ℕ → Groups → Type 0
IsAbsent k = All (λ g. g.key ≢ k)

abbrev pub IsDistinct : Groups → Type 0
IsDistinct [] = Unit
IsDistinct (g ∷ gs) = IsAbsent g.key gs × IsDistinct gs

abbrev pub IsAscending : Groups → Type 0
IsAscending [] = Unit
IsAscending (g ∷ gs) = All (λ h. g.key < h.key) gs × IsAscending gs

abbrev pub sum_at : ℕ → Groups → ℕ
sum_at k = sum_by (λ g. if g.key == k then g.sum else 0)

sum_at-add_row :
    (k j a : ℕ) (gs : Groups)
    → sum_at k (add_row ◌==◌ j a gs) ≡ sum_at k gs + (if j == k then a else 0)
unfolding add_row
sum_at-add_row k j a [] = ground arith
sum_at-add_row k j a (g ∷ gs) = ground (arith, sum_at-add_row k j a gs)

IsAbsent-add_row :
    (k j a : ℕ) (gs : Groups) → k ≢ j → IsAbsent k gs → IsAbsent k (add_row ◌==◌ j a gs)
unfolding add_row
IsAbsent-add_row k j a [] other h = (λ e. other (sym e), tt)
IsAbsent-add_row k j a (g ∷ gs) other h = elim (Bool-cases (g.key == j)) [
  | inl here ↦ rw here h
  | inr later ↦ rw later (h.0, IsAbsent-add_row k j a gs other h.1)
]

IsDistinct-add_row : (j a : ℕ) (gs : Groups) → IsDistinct gs → IsDistinct (add_row ◌==◌ j a gs)
unfolding add_row
IsDistinct-add_row j a [] h = (tt, tt)
IsDistinct-add_row j a (g ∷ gs) h = elim (Bool-cases (g.key == j)) [
  | inl here ↦ rw here h
  | inr later ↦ rw later (
    IsAbsent-add_row g.key j a gs (λ e. ground (arith, later, e)) h.0,
    IsDistinct-add_row j a gs h.1,
  )
]

pub sum_at-IsAbsent : (k : ℕ) (gs : Groups) → IsAbsent k gs → sum_at k gs ≡ 0
sum_at-IsAbsent k [] h = refl
sum_at-IsAbsent k (g ∷ gs) h = ground (arith, h.0, sum_at-IsAbsent k gs h.1)

module _ {A : Type 0} (key : A → ℕ) (amount : A → ℕ) where
  pub group_by-IsDistinct : (xs : List A) → IsDistinct (group_by ◌==◌ key amount xs)
  unfolding group_by
  group_by-IsDistinct [] = tt
  group_by-IsDistinct (x ∷ xs) =
      IsDistinct-add_row (key x) (amount x) (group_by ◌==◌ key amount xs) (group_by-IsDistinct xs)

  pub sum_at-group_by :
      (k : ℕ) (xs : List A)
      → sum_at k (group_by ◌==◌ key amount xs) ≡ sum_by (λ x. if key x == k then amount x else 0) xs
  unfolding group_by
  sum_at-group_by k [] = refl
  sum_at-group_by k (x ∷ xs) =
      sum_at-add_row k (key x) (amount x) (group_by ◌==◌ key amount xs)
      ∙ omega (arith, sum_at-group_by k xs)
