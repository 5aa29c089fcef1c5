-- ===== src/Decimal.antt =====
-- Decimal numbers as whole multiples of a unit. An amount of a request, which may have more decimals
-- than two, is counted in billionths of the currency unit; the numeric(12, 2) columns hold cents.
use salepoint_backend.Prelude.{ℕ, ◌+◌, ◌*◌, ◌/◌}

-- `Number(x.toFixed(2))` of an amount that is not negative, and the rounding of a numeric column
-- of scale 2: the nearest cent, a tie upwards.
unfoldable pub to_fixed : ℕ → ℕ
to_fixed amount = (amount + 5_000_000) / 10_000_000

-- The amount of that many cents.
abbrev pub of_cents : ℕ → ℕ
of_cents cents = cents * 10_000_000
