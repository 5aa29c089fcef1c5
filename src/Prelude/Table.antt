-- ===== src/Prelude/Table.antt =====
-- A table as the list of its rows in the order of insertion, each row with its primary key.
use Prim.Native.Nat.{ℕ, ◌+◌, ◌<◌, ◌≤◌}
use mathlib.Core.Path.{◌≡◌, refl, subst}
use mathlib.Core.Logic.{◌≢◌, inl, inr}
use mathlib.Core.Bool.{Bool, true, false}
use mathlib.Core.Option.{Option, none, some}
use mathlib.Core.List.{List, [], ◌∷◌}
use native.Mathlib.Omega.{arith}
use salepoint_backend.Prelude.Tests.{◌==◌, if◌then◌else◌, ==_refl, ==→eq, ==_ne, Bool-cases}
use salepoint_backend.Prelude.Lists.{find_first, sum_by, All}

module _ {ℓ} {A : Type ℓ} (key : A → ℕ) where
  -- `repo.findOne({ where: { id } })`
  abbrev pub find_by_id : ℕ → List A → Option A
  find_by_id i = find_first (λ r. key r == i)

  -- `repo.save(entity)`: the row with this primary key is replaced, or a new row is added.
  abbrev pub save : A → List A → List A
  save a [] = a ∷ []
  save a (x ∷ xs) = if key x == key a then a ∷ xs else x ∷ save a xs

  -- `repo.update(id, …)`: a missing row is no error.
  abbrev pub update_by_id : ℕ → (A → A) → List A → List A
  update_by_id i f [] = []
  update_by_id i f (x ∷ xs) = if key x == i then f x ∷ xs else x ∷ update_by_id i f xs

  -- Primary keys are unique.
  abbrev pub IsKeyed : List A → Type ℓ
  IsKeyed [] = Unit
  IsKeyed (x ∷ xs) = (find_by_id (key x) xs ≡ none) × IsKeyed xs

  pub find_by_id-save_self : (a : A) (xs : List A) → find_by_id (key a) (save a xs) ≡ some a
  find_by_id-save_self a [] = ground arith
  find_by_id-save_self a (x ∷ xs) = ground (arith, find_by_id-save_self a xs)

  pub find_by_id-save_ne :
      (i : ℕ) (a : A) (xs : List A) → key a ≢ i → find_by_id i (save a xs) ≡ find_by_id i xs
  find_by_id-save_ne i a [] h = ground arith
  find_by_id-save_ne i a (x ∷ xs) h = ground (arith, find_by_id-save_ne i a xs h)

  pub save-IsKeyed : (a : A) (xs : List A) → IsKeyed xs → IsKeyed (save a xs)
  save-IsKeyed a [] h = (refl, tt)
  save-IsKeyed a (x ∷ xs) h = elim (Bool-cases (key x == key a)) [
    | inl same ↦ rw same (rw (← ==→eq (key x) (key a) same) h.0, h.1)
    | inr other ↦
        let apart : key a ≢ key x = λ q. ground arith in
        rw other (rw (find_by_id-save_ne (key x) a xs apart) h.0, save-IsKeyed a xs h.1)
  ]

  -- The row that a query finds first is also the row under its own key.
  pub find_by_id-find_first :
      (p : A → Bool) (xs : List A) (a : A)
      → IsKeyed xs
      → find_first p xs ≡ some a
      → find_by_id (key a) xs ≡ some a
  find_by_id-find_first p [] a h e = cc
  find_by_id-find_first p (x ∷ xs) a h e =
      ground (arith, find_by_id-find_first p xs a h.1, ==_refl (key a))

  -- A query that the saved row satisfies, before and after, finds the saved row.
  pub find_first-save_self :
      (p : A → Bool) (a b : A) (xs : List A)
      → find_first p xs ≡ some b
      → key a ≡ key b
      → p a ≡ true
      → find_first p (save a xs) ≡ some a
  find_first-save_self p a b [] e k h = cc
  find_first-save_self p a b (x ∷ xs) e k h = ground (arith, find_first-save_self p a b xs)

  -- A query that finds nothing finds the added row.
  pub find_first-save_new :
      (p : A → Bool) (a : A) (xs : List A)
      → find_first p xs ≡ none
      → find_by_id (key a) xs ≡ none
      → p a ≡ true
      → find_first p (save a xs) ≡ some a
  find_first-save_new p a [] e k h = ground arith
  find_first-save_new p a (x ∷ xs) e k h = ground (arith, find_first-save_new p a xs)

  pub find_first-save_other_new :
      (p : A → Bool) (a : A) (xs : List A)
      → find_by_id (key a) xs ≡ none
      → p a ≡ false
      → find_first p (save a xs) ≡ find_first p xs
  find_first-save_other_new p a [] k h = ground arith
  find_first-save_other_new p a (x ∷ xs) k h = ground (arith, find_first-save_other_new p a xs)

  -- A query that neither the old nor the new row satisfies does not see the write.
  pub find_first-save_other :
      (p : A → Bool) (a b : A) (xs : List A)
      → find_by_id (key a) xs ≡ some b
      → p a ≡ false
      → p b ≡ false
      → find_first p (save a xs) ≡ find_first p xs
  find_first-save_other p a b [] e h k = cc
  find_first-save_other p a b (x ∷ xs) e h k = ground (arith, find_first-save_other p a b xs)

  pub sum_by-save :
      (f : A → ℕ) (a b : A) (xs : List A)
      → find_by_id (key a) xs ≡ some b
      → sum_by f (save a xs) + f b ≡ sum_by f xs + f a
  sum_by-save f a b [] e = cc
  sum_by-save f a b (x ∷ xs) e = ground (arith, sum_by-save f a b xs)

  pub sum_by-save_new :
      (f : A → ℕ) (a : A) (xs : List A)
      → find_by_id (key a) xs ≡ none
      → sum_by f (save a xs) ≡ sum_by f xs + f a
  sum_by-save_new f a [] e = omega arith
  sum_by-save_new f a (x ∷ xs) e = ground (arith, sum_by-save_new f a xs)

  pub All-save {κ} : (P : A → Type κ) (a : A) (xs : List A) → All P xs → P a → All P (save a xs)
  All-save P a [] h new = (new, tt)
  All-save P a (x ∷ xs) h new = elim (Bool-cases (key x == key a)) [
    | inl same ↦ rw same (new, h.1)
    | inr other ↦ rw other (h.0, All-save P a xs h.1 new)
  ]

  -- An update of another row is not seen.
  pub find_by_id-update_by_id_ne :
      (i j : ℕ) (f : A → A) (xs : List A)
      → ((x : A) → key (f x) ≡ key x)
      → i ≢ j
      → find_by_id j (update_by_id i f xs) ≡ find_by_id j xs
  find_by_id-update_by_id_ne i j f [] k ne = refl
  find_by_id-update_by_id_ne i j f (x ∷ xs) k ne =
      ground (arith, find_by_id-update_by_id_ne i j f xs k ne, k x)

  pub find_by_id-update_by_id_self :
      (i : ℕ) (f : A → A) (a : A) (xs : List A)
      → ((x : A) → key (f x) ≡ key x)
      → find_by_id i xs ≡ some a
      → find_by_id i (update_by_id i f xs) ≡ some (f a)
  find_by_id-update_by_id_self i f a [] k e = cc
  find_by_id-update_by_id_self i f a (x ∷ xs) k e =
      ground (arith, find_by_id-update_by_id_self i f a xs k, k x)

  pub find_by_id-key : (i : ℕ) (a : A) (xs : List A) → find_by_id i xs ≡ some a → key a ≡ i
  find_by_id-key i a [] e = cc
  find_by_id-key i a (x ∷ xs) e = ground (arith, find_by_id-key i a xs)

  -- Every key is below the next one that the database gives.
  abbrev pub IsBelow : ℕ → List A → Type 0
  IsBelow n [] = Unit
  IsBelow n (x ∷ xs) = (key x < n) × IsBelow n xs

  pub find_by_id-IsBelow : (n : ℕ) (xs : List A) → IsBelow n xs → find_by_id n xs ≡ none
  find_by_id-IsBelow n [] h = refl
  find_by_id-IsBelow n (x ∷ xs) h =
      rw (==_ne (key x) n (λ e. omega arith)) (find_by_id-IsBelow n xs h.1)

  pub IsBelow-mono : (m n : ℕ) (xs : List A) → m ≤ n → IsBelow m xs → IsBelow n xs
  IsBelow-mono m n [] le h = tt
  IsBelow-mono m n (x ∷ xs) le h = (omega arith, IsBelow-mono m n xs le h.1)

  pub save-IsBelow :
      (n : ℕ) (a : A) (xs : List A) → key a < n → IsBelow n xs → IsBelow n (save a xs)
  save-IsBelow n a [] lt h = (lt, tt)
  save-IsBelow n a (x ∷ xs) lt h = elim (Bool-cases (key x == key a)) [
    | inl same ↦ rw same (lt, h.1)
    | inr other ↦ rw other (h.0, save-IsBelow n a xs lt h.1)
  ]

  pub find_first-IsBelow :
      (n : ℕ) (p : A → Bool) (xs : List A) (a : A)
      → IsBelow n xs
      → find_first p xs ≡ some a
      → key a < n
  find_first-IsBelow n p [] a h e = cc
  find_first-IsBelow n p (x ∷ xs) a h e = ground (arith, find_first-IsBelow n p xs a h.1)

  -- A query by the key and by what the update leaves alone finds the updated row.
  pub find_first-update_by_id :
      (i : ℕ) (f : A → A) (p : A → Bool) (a : A) (xs : List A)
      → ((x : A) → p x ≡ true → key x ≡ i)
      → find_by_id i xs ≡ some a
      → p (f a) ≡ true
      → find_first p (update_by_id i f xs) ≡ some (f a)
  find_first-update_by_id i f p a [] k e h = cc
  find_first-update_by_id i f p a (x ∷ xs) k e h =
      ground (arith, find_first-update_by_id i f p a xs k, k x, ==_refl i)

  pub All-update_by_id {κ} :
      (P : A → Type κ) (i : ℕ) (f : A → A) (a : A) (xs : List A)
      → All P xs
      → find_by_id i xs ≡ some a
      → P (f a)
      → All P (update_by_id i f xs)
  All-update_by_id P i f a [] h e new = tt
  All-update_by_id P i f a (x ∷ xs) h e new = elim (Bool-cases (key x == i)) [
    | inl same ↦ let here : a ≡ x = ground arith in rw same (subst (λ y. P (f y)) here new, h.1)
    | inr other ↦ rw other (h.0, All-update_by_id P i f a xs h.1 (rw other at e) new)
  ]

  pub All-update_every {κ} :
      (P : A → Type κ) (i : ℕ) (f : A → A) (xs : List A)
      → ((a : A) → P a → P (f a))
      → All P xs
      → All P (update_by_id i f xs)
  All-update_every P i f [] g h = tt
  All-update_every P i f (x ∷ xs) g h = elim (Bool-cases (key x == i)) [
    | inl same ↦ rw same (g x h.0, h.1)
    | inr other ↦ rw other (h.0, All-update_every P i f xs g h.1)
  ]

  pub All-find_first {κ} :
      (P : A → Type κ) (p : A → Bool) (a : A) (xs : List A)
      → All P xs
      → find_first p xs ≡ some a
      → P a
  All-find_first P p a [] h e = cc
  All-find_first P p a (x ∷ xs) h e = elim (Bool-cases (p x)) [
    | inl here ↦ let same : x ≡ a = ground arith in subst P same h.0
    | inr other ↦ All-find_first P p a xs h.1 (rw other at e)
  ]
