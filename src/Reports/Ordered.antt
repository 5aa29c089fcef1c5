-- ===== src/Reports/Ordered.antt =====
-- Groups by a number, each once and in ascending order (reports.service.ts).
use salepoint_backend.Prelude.{
  ℕ, ◌<◌, ◌≡◌, ◌≢◌, sym, ◌∙◌, inl, inr, Bool, List, [], ◌∷◌, arith, ◌==◌, if◌then◌else◌, sum_by,
  All, All-mono, All-zip, Bool-cases,
}
use salepoint_backend.Reports.Defs.{Group, group_by, insert_row, order_by, ascending}
use salepoint_backend.Reports.Grouping.{
  Groups, IsAbsent, IsDistinct, IsAscending, sum_at, sum_at-IsAbsent, group_by-IsDistinct,
  sum_at-group_by, All-insert_row, All-order_by,
}

abbrev pub in_order : Group ℕ → Group ℕ → Bool
in_order = ascending (λ k. k)

insert_row-IsAscending :
    (x : Group ℕ) (ys : Groups)
    → IsAbsent x.key ys
    → IsAscending ys
    → IsAscending (insert_row in_order x ys)
unfolding insert_row
insert_row-IsAscending x [] new h = (tt, tt)
insert_row-IsAscending x (y ∷ ys) new h = elim (Bool-cases (in_order x y)) [
  | inl first ↦
      let below : x.key < y.key = ground (arith, first, new.0) in
      rw first (
        (
          below,
          All-mono (λ (z : Group ℕ) (q : y.key < z.key). let r : x.key < z.key = omega arith in r)
              ys h.0,
        ),
        h,
      )
  | inr later ↦
      let below : y.key < x.key = ground (arith, later) in
      rw later (
        All-insert_row in_order (λ z. y.key < z.key) x ys below h.0,
        insert_row-IsAscending x ys new.1 h.1,
      )
]

pub order_by-IsAscending : (gs : Groups) → IsDistinct gs → IsAscending (order_by in_order gs)
unfolding order_by
order_by-IsAscending [] h = tt
order_by-IsAscending (g ∷ gs) h =
    insert_row-IsAscending g (order_by in_order gs)
      (All-order_by in_order (λ k. k.key ≢ g.key) gs h.0) (order_by-IsAscending gs h.1)

IsDistinct-sums : (gs : Groups) → IsDistinct gs → All (λ g. sum_at g.key gs ≡ g.sum) gs
IsDistinct-sums [] h = tt
IsDistinct-sums (g ∷ gs) h = (
  ground (arith, sum_at-IsAbsent g.key gs h.0),
  All-zip
      (λ (k : Group ℕ) (other : k.key ≢ g.key) (same : sum_at k.key gs ≡ k.sum).
        let r : sum_at k.key (g ∷ gs) ≡ k.sum = ground (arith, other, same) in r)
      gs h.0 (IsDistinct-sums gs h.1),
)

module _ {A : Type 0} (key : A → ℕ) (amount : A → ℕ) (xs : List A) where
  abbrev pub sum_of_key : ℕ → ℕ
  sum_of_key k = sum_by (λ x. if key x == k then amount x else 0) xs

  -- Every group holds the sum over the rows with its key.
  pub group_by-AllExact : All (λ g. g.sum ≡ sum_of_key g.key) (group_by ◌==◌ key amount xs)
  group_by-AllExact =
      All-mono
        (λ (g : Group ℕ) (e : sum_at g.key (group_by ◌==◌ key amount xs) ≡ g.sum).
          sym e ∙ sum_at-group_by key amount g.key xs)
        (group_by ◌==◌ key amount xs)
        (IsDistinct-sums (group_by ◌==◌ key amount xs) (group_by-IsDistinct key amount xs))
