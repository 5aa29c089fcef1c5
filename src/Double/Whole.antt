-- ===== src/Double/Whole.antt =====
-- Doubles of whole numbers are exact.
use native.Mathlib.Nat.{mul-div_cancel, mul-mod_left}
use salepoint_backend.Prelude.{
  ℕ, zero, suc, ◌-◌, ◌*◌, ◌/◌, ◌%◌, ◌^◌, ◌<◌, ◌≤◌, ◌≡◌, refl, ap, ◌∙◌, true, ltb, inl, inr,
  Bool-cases, arith,
}
use salepoint_backend.Double.{one, ulp, half_even, nearest, of_ratio, sub}

doubled : ℕ → ℕ
doubled zero = 1
doubled (suc j) = 2 * doubled j

-- The distance of the doubles divides each power of 2 that is large enough.
ulp-divides :
    (j k u n : ℕ) → j ≤ k → n < 2 ^ 53 * (u * doubled j) → (c : ℕ) × (ulp k u n * c ≡ u * doubled j)
unfolding ulp doubled
ulp-divides zero zero u n le lt = (1, refl)
ulp-divides zero (suc k) u n le lt =
    let test : ltb n (2 ^ 53 * u) ≡ true = ground arith in rw test (1, refl)
ulp-divides (suc j) zero u n le lt = absurd (omega arith)
ulp-divides (suc j) (suc k) u n le lt = elim (Bool-cases (ltb n (2 ^ 53 * u))) [
  | inl test ↦ rw test (2 * doubled j, refl)
  | inr test ↦
      let (c, e) = ulp-divides j k (u * 2) n (omega arith) (grind arith) in
      rw test (c, e ∙ grind arith)
]

one-doubled : one ≡ doubled 120
unfolding doubled
one-doubled = refl

half_even_exact : (q d : ℕ) → 0 < d → half_even q 0 d ≡ q
half_even_exact q d pos = let test : ltb (2 * 0) d ≡ true = ground arith in rw test refl

factor_pos : (u c : ℕ) → u * c ≡ one → 0 < u
factor_pos zero c e = absurd (ground (arith, e))
factor_pos (suc u) c e = omega arith

split_lem : (m b u c o : ℕ) → u * c ≡ o → m * o * b ≡ c * m * (b * u)
split_lem m b u c o e = rw (← e) (omega arith)

joined_lem : (m u c o : ℕ) → u * c ≡ o → c * m * u ≡ m * o
joined_lem m u c o e = rw (← e) (omega arith)

-- The quotient, where it is a whole number below 2^53, is its own double.
nearest_whole : (m b : ℕ) → m < 2 ^ 53 → 0 < b → nearest (m * one * b) b ≡ m * one
unfolding nearest
nearest_whole m b small pos =
    let v = m * one in
    let whole : v * b / b ≡ v = mul-div_cancel v pos in
    let u = ulp 200 1 v in
    let (c, e) = ulp-divides 120 200 1 v (omega arith) (rw (← one-doubled) (omega arith)) in
    let divides : u * c ≡ one = e ∙ rw (← one-doubled) (omega arith) in
    let du : 0 < u = factor_pos u c divides in
    let positive : 0 < b * u = grind arith in
    let split : v * b ≡ c * m * (b * u) = split_lem m b u c one divides in
    rw whole (
      ap (λ x. half_even (x / (b * u)) (x % (b * u)) (b * u) * u) split
      ∙ ap (λ q. half_even q (c * m * (b * u) % (b * u)) (b * u) * u)
          (mul-div_cancel (c * m) positive)
      ∙ ap (λ r. half_even (c * m) r (b * u) * u) (mul-mod_left (c * m) (b * u))
      ∙ ap (λ q. q * u) (half_even_exact (c * m) (b * u) positive)
      ∙ joined_lem m u c one divides)

-- A whole quantity is read as the number of its units, and the difference of two is exact.
pub of_ratio_whole : (m : ℕ) → m < 2 ^ 53 → of_ratio (m * 1000) 1000 ≡ m * one
unfolding of_ratio
of_ratio_whole m small =
    let e : m * 1000 * one ≡ m * one * 1000 = omega arith in
    ap (λ x. nearest x 1000) e ∙ nearest_whole m 1000 small (omega arith)

pub sub_whole : (m n : ℕ) → m < 2 ^ 53 → sub (m * one) (n * one) ≡ (m - n) * one
unfolding sub
sub_whole m n small =
    let e : m * one - n * one ≡ (m - n) * one * 1 = omega arith in
    ap (λ x. nearest x 1) e ∙ nearest_whole (m - n) 1 (omega arith) (omega arith)
