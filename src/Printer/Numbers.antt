-- ===== src/Printer/Numbers.antt =====
-- Numbers as the receipts show them: `fmt` and `fmtQty` of modules/printer/printer.service.ts.
use Prim.Native.String.{◌++◌}
use salepoint_backend.Prelude.{
  ℕ, zero, suc, ◌+◌, ◌/◌, ◌%◌, ◌≡◌, refl, Option, none, some, String, ◌==◌, ltb, if◌then◌else◌,
}
use salepoint_backend.Products.{UnitType, piece, meter, kilogram}

-- A digit.
abbrev digit : ℕ → String
digit d =
    if d == 0
    then "0"
    else if d == 1
    then "1"
    else if d == 2
    then "2"
    else if d == 3
    then "3"
    else if d == 4
    then "4"
    else if d == 5
    then "5"
    else if d == 6
    then "6"
    else if d == 7
    then "7"
    else if d == 8
    then "8"
    else "9"

-- The decimal digits; more fuel than the number has digits is enough.
digits_from : ℕ → ℕ → String
digits_from zero n = ""
digits_from (suc fuel) n =
    let rest = digits_from fuel (n / 10) in if ltb n 10 then digit n else rest ++ digit (n % 10)

unfoldable pub decimal : ℕ → String
unfolding digits_from
decimal n = digits_from (n + 1) n

-- `Number(value).toFixed(2)`, of an amount in cents.
unfoldable pub fmt : ℕ → String
unfolding decimal
fmt cents = decimal (cents / 100) ++ "." ++ digit (cents / 10 % 10) ++ digit (cents % 10)

-- `qty.toFixed(3)`, of a quantity in thousandths.
unfoldable pub to_fixed3 : ℕ → String
unfolding decimal
to_fixed3 q =
    decimal (q / 1000) ++ "." ++ digit (q / 100 % 10) ++ digit (q / 10 % 10) ++ digit (q % 10)

-- The text of the number: no trailing zeros.
unfoldable pub plain : ℕ → String
unfolding decimal to_fixed3
plain q =
    if q % 1000 == 0
    then decimal (q / 1000)
    else if q % 100 == 0
    then decimal (q / 1000) ++ "." ++ digit (q / 100 % 10)
    else if q % 10 == 0
    then decimal (q / 1000) ++ "." ++ digit (q / 100 % 10) ++ digit (q / 10 % 10)
    else to_fixed3 q

-- `fmtQty`; without a product the unit is PIECE.
unfoldable pub fmt_qty : Option UnitType → ℕ → String
unfolding plain to_fixed3
fmt_qty (some meter) q = to_fixed3 q ++ " м"
fmt_qty (some kilogram) q = to_fixed3 q ++ " кг"
fmt_qty (some piece) q = plain q ++ " шт"
fmt_qty none q = plain q ++ " шт"

shown : fmt 1234505 ≡ "12345.05"
unfolding fmt
shown = refl

weighed : fmt_qty (some kilogram) 350 ≡ "0.350 кг"
unfolding fmt_qty
weighed = refl

counted : fmt_qty none 2500 ≡ "2.5 шт"
unfolding fmt_qty
counted = refl
