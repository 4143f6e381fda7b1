-- ===== src/Ntoa/Float/General.antt =====
-- `ftoa_base10_g` of reckless/src/ntoa.cpp: which of the two forms is printed, and how precisely.
pub mod Trimmed
pub mod Scientific
use reckless.Prelude.{
  ℕ, zero, suc, ◌+◌, ◌-◌, ◌*◌, ◌/◌, ◌%◌, ◌≤◌, ◌<◌, ◌^◌, ◌≡◌, ◌≢◌, refl, arith, Bool, true, false,
  ltb, ◌==◌, if◌then◌else◌, ap, ◌∙◌, sym, inl, inr, Bool-cases, sub32, add32, min,
}
use reckless.Prelude.Int.{pos, nat_abs}
use reckless.Output.{Buffer}
use reckless.Ntoa.Significand.{
  Decimal18, rounded_divide, lowest, count_trailing_zeroes, count_trailing_zeroes_after_dot,
  digits_in_front,
}
use reckless.Ntoa.Significand.Round.{after_dot_bounds}
use reckless.Ntoa.Itoa.{ConversionSpecification, unspecified_precision}
use reckless.Ntoa.Float.{
  Category, fp_finite, ftoa_base10_g, ftoa_base10_f_normal, is_plain, plain_precision, precision_g,
}
use reckless.Ntoa.Float.Rounding.{units}
use reckless.Ntoa.Float.Fixed.Plan.{IsFixed}
use reckless.Ntoa.Float.Fixed.Refine.{ftoa_base10_f_normal-Appends}
use reckless.Ntoa.Float.Fixed.Printed.{Prints}

-- The zeroes that are left out behind the dot.
abbrev pub dropped_zeroes : Decimal18 → ConversionSpecification → ℕ
dropped_zeroes dv cs =
    if cs.alternative_form
    then 0
    else count_trailing_zeroes_after_dot dv - sub32 18 (precision_g cs)

abbrev pub precision_plain : Decimal18 → ConversionSpecification → ℕ
precision_plain dv cs = plain_precision (precision_g cs) dv.exponent (dropped_zeroes dv cs)

pub precision_g_bound :
    (cs : ConversionSpecification)
    → cs.alternative_form ≡ false
    → precision_g cs < 2 ^ 31
    → (0 < precision_g cs) × (precision_g cs ≤ 18)
unfolding precision_g
precision_g_bound cs h small = ground arith

pub precision_g_positive : (cs : ConversionSpecification) → 0 < precision_g cs
unfolding precision_g
precision_g_positive cs = ground arith

-- If the last of the 17 digits that are looked at is not a zero, none is left out.
nothing_dropped :
    (dv : Decimal18) (cs : ConversionSpecification)
    → precision_g cs < 18
    → rounded_divide dv.sign dv.mantissa 10 % 10 ≢ 0
    → dropped_zeroes dv cs ≡ 0
nothing_dropped dv cs short h =
    let (few, one) = after_dot_bounds dv in
    let some = precision_g_positive cs in
    elim (Bool-cases cs.alternative_form) [
      | inl a ↦ simp a refl
      | inr a ↦ simp a (omega (arith, one h))
    ]

module _ (b : Buffer) {D : Type 0} (classify : D → Category) where
  -- For a finite value, zero or of 18 digits, with a decimal exponent n that is not negative and
  -- below the precision less one, the precision being below 18, where the last of the first 17
  -- digits is not 0, but the number rounded to the precision ends in a zero, and a width below
  -- 2^32: `ftoa_base10_g` appends all the digits of the precision with the zeroes at the end,
  -- whether or not the alternative form is asked for; or, if the buffer fails, a first part of
  -- that.
  pub ftoa_base10_g-keeps :
      (value : D) (dv : Decimal18) (cs : ConversionSpecification) (s : b.State) (n : ℕ)
      → classify value ≡ fp_finite dv
      → dv.exponent ≡ pos n
      → suc n < precision_g cs
      → precision_g cs < 18
      → rounded_divide dv.sign dv.mantissa 10 % 10 ≢ 0
      → units dv (precision_g cs - 1 - n) % 10 ≡ 0
      → IsFixed dv (precision_g cs - 1 - n) cs
      → Prints b cs dv.sign
          (precision_g cs - 1 - n)
          (units dv (precision_g cs - 1 - n))
          s
          (ftoa_base10_g b classify value cs s)
  unfolding ftoa_base10_g
  ftoa_base10_g-keeps value dv cs s n e exponent more short digit ends h =
      let none = nothing_dropped dv cs short digit in
      let plain : is_plain (precision_g cs) dv.exponent ≡ true = simp exponent (ground arith) in
      let same : precision_plain dv cs ≡ precision_g cs - 1 - n =
        simp (exponent, none) (ground arith) in
      let (digits, counts, p) = ftoa_base10_f_normal-Appends b dv (precision_g cs - 1 - n) cs s h in
      rw (ftoa_base10_g, e, plain, same) (record { digits = digits; counts = counts; printed = p })
