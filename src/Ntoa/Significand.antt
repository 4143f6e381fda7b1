-- ===== src/Ntoa/Significand.antt =====
-- reckless/src/ntoa.cpp: the 18 decimal digits of a `double`, and their rounding.
pub mod Round
use reckless.Prelude.{
  ℕ, zero, suc, ◌+◌, ◌-◌, ◌*◌, ◌/◌, ◌%◌, ◌^◌, List, [], ◌∷◌, Bool, true, false, not, ltb, ◌==◌,
  if◌then◌else◌, add32, sub32, add64, get_or,
}
use reckless.Prelude.Int.{ℤ, pos, negsuc}

abbrev pub power_lut : List ℕ
power_lut =
    1 ∷ 10 ∷ 100 ∷ 1000 ∷ 10000 ∷ 100000 ∷ 1000000 ∷ 10000000 ∷ 100000000 ∷ 1000000000 ∷ 10000000000
    ∷ 100000000000 ∷ 1000000000000 ∷ 10000000000000 ∷ 100000000000000 ∷ 1000000000000000
    ∷ 10000000000000000 ∷ 100000000000000000 ∷ 1000000000000000000 ∷ []

-- An index behind the table is undefined behaviour in the source. Here it reads 0.
abbrev pub power : ℕ → ℕ
power digits = get_or power_lut digits 0

-- (-1)^sign * mantissa * 10^(exponent - 17): the mantissa has 18 digits or is 0.
pub record Decimal18 : Type 0 where
  pub sign : Bool
  pub mantissa : ℕ
  pub exponent : ℤ

-- 64-bit arithmetic. `divisor` is not 0.
unfoldable pub rounded_divide : Bool → ℕ → ℕ → ℕ
rounded_divide sign value divisor =
    if not sign
    then add64 value (divisor / 2) / divisor
    else (add64 value (divisor - 1) + 2 ^ 64 - divisor / 2) % 2 ^ 64 / divisor

unfoldable pub rounded_rshift : Bool → ℕ → ℕ → ℕ
rounded_rshift sign value digits = rounded_divide sign value (power digits)

-- `while(low < high)`: the lowest x for which 10^x does not divide the mantissa. The range is
-- halved in each round, so that `high` rounds are enough.
unfoldable pub lowest : ℕ → ℕ → ℕ → ℕ → ℕ
lowest zero mantissa low high = low
lowest (suc fuel) mantissa low high =
    let position : ℕ = (low + high) / 2 in
    let above = lowest fuel mantissa (position + 1) high in
    let below = lowest fuel mantissa low position in
    if ltb low high then (if mantissa % power position == 0 then above else below) else low

pub count_trailing_zeroes : Decimal18 → ℕ → ℕ
count_trailing_zeroes dv truncated_digits =
    let mantissa = rounded_rshift dv.sign dv.mantissa truncated_digits in
    let high = sub32 18 (truncated_digits % 2 ^ 32) in sub32 (lowest high mantissa 0 high) 1

-- `std::max(0, dv.exponent + 1)`.
abbrev pub digits_in_front : ℤ → ℕ
digits_in_front (pos n) = n + 1
digits_in_front (negsuc n) = 0

unfoldable pub count_trailing_zeroes_after_dot : Decimal18 → ℕ
count_trailing_zeroes_after_dot dv =
    let mantissa = rounded_divide dv.sign dv.mantissa 10 in
    let digits_before_dot = digits_in_front dv.exponent in
    let high = 17 - digits_before_dot + 1 in
    if ltb 17 digits_before_dot then 0 else add32 (sub32 (lowest high mantissa 0 high) 1) 1
