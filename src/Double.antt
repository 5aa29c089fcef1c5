-- ===== src/Double.antt =====
-- The numbers of the program where their rounding decides: IEEE 754 doubles that are not negative,
-- each counted in units of 2^-120. Quantities have 3 decimals, amounts and rates 2, payments 9 at
-- most, and a product of three of them is at least 10^-15, so that every double that the program
-- forms of them is a whole number of units.
pub mod Whole
use salepoint_backend.Prelude.{
  ℕ, zero, suc, ◌+◌, ◌-◌, ◌*◌, ◌/◌, ◌%◌, ◌^◌, ◌<◌, ◌≤◌, ◌≡◌, refl, Bool, ltb, if◌then◌else◌, arith,
}

abbrev pub one : ℕ
one = 2 ^ 120

-- The distance of the doubles around a value: the least power of 2 that 2^53 times is more than it.
unfoldable pub ulp : ℕ → ℕ → ℕ → ℕ
ulp zero u n = u
ulp (suc k) u n = let rest = ulp k (u * 2) n in if ltb n (2 ^ 53 * u) then u else rest

-- A quotient and a remainder rounded to nearest, a tie to even.
abbrev pub half_even : ℕ → ℕ → ℕ → ℕ
half_even q r d = if ltb (2 * r) d then q else if ltb d (2 * r) then q + 1 else q + q % 2

-- The double next to a / b.
unfoldable pub nearest : ℕ → ℕ → ℕ
unfolding ulp
nearest a b = let u = ulp 200 1 (a / b) in half_even (a / (b * u)) (a % (b * u)) (b * u) * u

-- What a decimal of the database or of a request is read as.
unfoldable pub of_ratio : ℕ → ℕ → ℕ
unfolding nearest
of_ratio a b = nearest (a * one) b

unfoldable pub add : ℕ → ℕ → ℕ
unfolding nearest
add x y = nearest (x + y) 1

-- Where x is at least y.
unfoldable pub sub : ℕ → ℕ → ℕ
unfolding nearest
sub x y = nearest (x - y) 1

unfoldable pub mul : ℕ → ℕ → ℕ
unfolding nearest
mul x y = nearest (x * y) one

unfoldable pub per_cent : ℕ → ℕ
unfolding nearest
per_cent x = nearest x 100

-- `Number(x.toFixed(2))`, in cents: the nearest cent to the exact value, a tie upwards.
unfoldable pub to_fixed : ℕ → ℕ
to_fixed x = (x * 200 + one) / (2 * one)

-- What a column of two decimals holds of x, in cents. The client sends the shortest decimal that is
-- read as x, and the database rounds that, a tie upwards: a double that a tie is read as is sent as
-- the tie.
unfoldable pub to_column : ℕ → ℕ
unfolding of_ratio
to_column x =
    let cents = x * 100 / one in if ltb x (of_ratio (2 * cents + 1) 200) then cents else cents + 1

abbrev pub of_thousandths : ℕ → ℕ
of_thousandths n = of_ratio n 1000

abbrev pub of_cents : ℕ → ℕ
of_cents n = of_ratio n 100
