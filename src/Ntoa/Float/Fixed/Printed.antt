-- ===== src/Ntoa/Float/Fixed/Printed.antt =====
-- `ftoa_base10_f` of reckless/src/ntoa.cpp: how near the number that is printed is to the value.
use native.Mathlib.Nat.{pow-le-pow_right}
use reckless.Prelude.{
  ℕ, ◌+◌, ◌-◌, ◌*◌, ◌/◌, ◌≤◌, ◌<◌, ◌^◌, ◌≡◌, arith, Bool, ◌==◌, if◌then◌else◌, min,
}
use reckless.Prelude.Int.{negsuc}
use reckless.Output.{Buffer, Outcome}
use reckless.Output.Appends.{Appends}
use reckless.Ntoa.Significand.{Decimal18, rounded_rshift}
use reckless.Ntoa.Significand.Round.{rounded_rshift-IsNearest}
use reckless.Ntoa.Itoa.{ConversionSpecification, unspecified_precision}
use reckless.Ntoa.Itoa.Laws.{CountsDecimal}
use reckless.Ntoa.Float.{Category, fp_finite, ftoa_base10_f, ftoa_base10_f_normal}
use reckless.Ntoa.Float.Rounding.{units, IsRounded, units-IsRounded, scale_down}
use reckless.Ntoa.Float.Fixed.Plan.{IsFixed}
use reckless.Ntoa.Float.Fixed.Refine.{point_text, signed_field, ftoa_base10_f_normal-Appends}

-- `n` is printed with `precision` digits behind the dot.
pub record Prints (b : Buffer) (cs : ConversionSpecification) (negative : Bool) (precision n : ℕ)
    (s : b.State) (o : Outcome b.Error b.State (Unit {0})) : Type 0 where
  pub digits : ℕ
  pub counts : CountsDecimal digits (n / 10 ^ precision)
  pub printed :
      Appends b (signed_field cs negative (point_text cs.alternative_form digits n precision)) s o

-- Six digits behind the dot, if nothing else is asked for.
abbrev pub precision_f : ConversionSpecification → ℕ
precision_f cs = if cs.precision == unspecified_precision then 6 else cs.precision

module _ (b : Buffer) {D : Type 0} (classify : D → Category) where
  -- For a finite value, zero or of 18 digits, whose decimal exponent is at least -(precision + 1),
  -- the precision being 6 if none is given, a width below 2^32, and a precision that is below 2^32
  -- with the size of the exponent and 32 added: `ftoa_base10_f` appends the sign, if there is one
  -- to show, the whole part of a number without leading zeroes, a dot, if there are digits behind
  -- it or the alternative form asks for it, and `precision` digits, padded to the minimum field
  -- width with spaces or zeroes; or, if the buffer fails, a first part of that. The number is
  -- nearest to the value among the multiples of 10^-precision: it is at most half a unit of the
  -- last place away.
  pub ftoa_base10_f-Appends :
      (value : D) (dv : Decimal18) (cs : ConversionSpecification) (s : b.State)
      → classify value ≡ fp_finite dv
      → IsFixed dv (precision_f cs) cs
      → scale_down dv.exponent (precision_f cs) ≤ 18
      → (n : ℕ) × IsRounded dv (precision_f cs) n
        × Prints b cs dv.sign (precision_f cs) n s (ftoa_base10_f b classify value cs s)
  unfolding ftoa_base10_f
  ftoa_base10_f-Appends value dv cs s e h short =
      let (digits, counts, p) = ftoa_base10_f_normal-Appends b dv (precision_f cs) cs s h in
      (
        units dv (precision_f cs),
        units-IsRounded dv (precision_f cs) h.decimal short,
        rw (ftoa_base10_f, e) (record { digits = digits; counts = counts; printed = p }),
      )

one_unit :
    (dv : Decimal18) (n precision : ℕ)
    → dv.exponent ≡ negsuc n
    → precision < n
    → 5 * 10 ^ 17 < dv.mantissa
    → dv.mantissa < 10 ^ 18
    → (units dv precision ≡ 1) × IsRounded dv precision 0
one_unit dv n precision e few half high =
    let near = rounded_rshift-IsNearest dv.sign dv.mantissa 18 high (omega arith) in
    let one : rounded_rshift dv.sign dv.mantissa 18 ≡ 1 = omega (arith, near.below, near.above) in
    let up : precision - (18 + n) ≡ 0 = omega arith in
    let cap : min 18 (18 + n - precision) ≡ 18 = omega arith in
    let big : 10 ^ 19 ≤ 10 ^ (18 + n - precision) =
      pow-le-pow_right (omega arith) {i = 19} (omega arith) in
    (
      rw (e, up, cap, one) (omega arith),
      rw (e, up) (record { below = omega arith; above = omega (arith, big, high) }),
    )

module _ (b : Buffer) where
  -- For a value between 5 * 10^-(n + 1) and 10^-n, where n is above the precision, a width below
  -- 2^32 and an exponent and a precision that are below 2^32 with 32 added: the nearest number of
  -- the precision is 0, but `ftoa_base10_f_normal` appends one unit of the last place in its field;
  -- or, if the buffer fails, a first part of that.
  pub ftoa_base10_f-overshoots :
      (dv : Decimal18) (n precision : ℕ) (cs : ConversionSpecification) (s : b.State)
      → IsFixed dv precision cs
      → dv.exponent ≡ negsuc n
      → precision < n
      → 5 * 10 ^ 17 < dv.mantissa
      → dv.mantissa < 10 ^ 18
      → IsRounded dv precision 0
        × Prints b cs dv.sign precision 1 s (ftoa_base10_f_normal b dv precision cs s)
  ftoa_base10_f-overshoots dv n precision cs s h e few half high =
      let (one, zero_nearest) = one_unit dv n precision e few half high in
      let (digits, counts, p) = ftoa_base10_f_normal-Appends b dv precision cs s h in
      (zero_nearest, record { digits = digits; counts = rw one at counts; printed = rw one at p })
