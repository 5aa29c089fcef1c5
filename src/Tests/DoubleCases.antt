-- ===== src/Tests/DoubleCases.antt =====
-- Doubles at sample values.
use salepoint_backend.Prelude.{◌≡◌, refl, true, ltb}
use salepoint_backend.Double.{
  nearest, ulp, of_ratio, add, sub, mul, to_fixed, to_column, of_thousandths, of_cents,
}

-- 0.8 - 0.7 - 0.1 is positive.
residue : ltb 0 (sub (sub (of_thousandths 800) (of_thousandths 700)) (of_thousandths 100)) ≡ true
unfolding sub of_ratio nearest ulp
residue = refl

below : ltb (sub (of_thousandths 300) (of_thousandths 200)) (of_thousandths 100) ≡ true
unfolding sub of_ratio nearest ulp
below = refl

sum_below : ltb (add (of_cents 70) (of_cents 10)) (of_cents 80) ≡ true
unfolding add of_ratio nearest ulp
sum_below = refl

half_cent : to_fixed (sub (mul (of_cents 201) (of_thousandths 500)) (of_cents 100)) ≡ 0
unfolding sub mul of_ratio nearest ulp to_fixed
half_cent = refl

half_column : to_column (mul (of_cents 201) (of_thousandths 500)) ≡ 101
unfolding mul of_ratio nearest ulp to_column
half_column = refl

low_column : to_column (mul (of_cents 115) (of_thousandths 100)) ≡ 11
unfolding mul of_ratio nearest ulp to_column
low_column = refl
