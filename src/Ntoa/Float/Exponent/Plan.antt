-- ===== src/Ntoa/Float/Exponent/Plan.antt =====
-- What `ftoa_base10_e_normal` of reckless/src/ntoa.cpp computes before it reserves the memory.
use native.Mathlib.Nat.{mul-le-mul_right, suc-mul}
use native.Mathlib.Decide.{dec_lt}
use reckless.Prelude.{
  ℕ, suc, ◌+◌, ◌-◌, ◌*◌, ◌≤◌, ◌<◌, ◌^◌, ◌≡◌, refl, arith, Bool, not, ◌||◌, ◌&&◌, ap, ◌∙◌, ◌==◌,
  if◌then◌else◌, sub32, add32,
}
use reckless.Prelude.Int.{ℤ, pos, negsuc, nat_abs}
use reckless.Ntoa.Significand.{Decimal18, rounded_rshift}
use reckless.Ntoa.Significand.Round.{IsNearest, rounded_rshift-IsNearest}
use reckless.Ntoa.Itoa.{ConversionSpecification, one_if_set}
use reckless.Ntoa.Float.{plan_e, FloatLayout, exponent_parts, exponent_digits}
use reckless.Ntoa.Float.Rounding.{rounded_upper, split_power}
use reckless.Ntoa.Float.Sizes.{sizes, one_if_set_bound}
use reckless.Ntoa.Float.Exponent.{IsExact, scientific_size}

-- The table of powers holds those that are needed, and the width is an `unsigned`.
pub record IsScientific (dv : Decimal18) (precision : ℕ) (cs : ConversionSpecification)
    : Type 0 where
  pub width_small : cs.minimum_field_width < 2 ^ 32
  pub precision_small : precision ≤ 17
  pub exponent_small : nat_abs dv.exponent < 1000
  pub mantissa_small : dv.mantissa < 10 ^ 18

pub exponent_parts_lem : (e : ℤ) → ((exponent_parts e).1 ≡ nat_abs e)
exponent_parts_lem (pos n) = refl
exponent_parts_lem (negsuc n) = omega arith

add_sizes :
    (one dot precision digits : ℕ)
    → one + 1 + dot + precision + 1 + 1 + digits ≡ one + suc (dot + (precision + suc (suc digits)))
add_sizes one dot precision digits = omega arith

size_bound :
    (one precision x : ℕ) (t : Bool)
    → one ≤ 1
    → precision ≤ 17
    → one + suc ((if t then 1 else 0) + (precision + suc (suc (exponent_digits x)))) < 2 ^ 32
size_bound one precision x t h h' = ground arith

module _ (dv : Decimal18) (precision : ℕ) (cs : ConversionSpecification)
    (h : IsScientific dv precision cs) where
  abbrev l : FloatLayout
  l = plan_e dv precision cs

  pub plan_e-dot : l.dot ≡ (not (precision == 0) || cs.alternative_form)
  unfolding plan_e
  plan_e-dot = refl

  -- The digits that are printed.
  abbrev pub rounded : ℕ
  rounded = rounded_rshift dv.sign dv.mantissa (17 - precision)

  pub plan_e-mantissa : l.mantissa ≡ rounded
  unfolding plan_e
  plan_e-mantissa = ap (rounded_rshift dv.sign dv.mantissa) (
      let e : sub32 18 (add32 precision 1) ≡ 17 - precision = omega (arith, h.precision_small) in e)

  pub rounded-IsNearest : IsNearest dv.mantissa (10 ^ (17 - precision)) rounded
  rounded-IsNearest =
      rounded_rshift-IsNearest dv.sign dv.mantissa (17 - precision) h.mantissa_small (omega arith)

  pub rounded_most : rounded ≤ 10 ^ suc precision
  rounded_most =
      let e : 18 - suc precision ≡ 17 - precision = omega arith in
      let u =
        rounded_upper dv.sign dv.mantissa (suc precision) (omega (arith, h.precision_small))
          h.mantissa_small in
      rw e at u

  split : 10 ^ suc precision * 10 ^ (17 - precision) ≡ 10 ^ 18
  split =
      let e : 18 - suc precision ≡ 17 - precision = omega arith in
      let s = split_power (suc precision) (omega (arith, h.precision_small)) in rw e at s

  pub rounded_below :
      2 * dv.mantissa + 10 ^ (17 - precision) < 2 * 10 ^ 18 → rounded < 10 ^ suc precision
  rounded_below few = elim (dec_lt rounded (10 ^ suc precision)) [
    | yes lt ↦ lt
    | no ge ↦
        let m : 10 ^ suc precision * 10 ^ (17 - precision) ≤ rounded * 10 ^ (17 - precision) =
          mul-le-mul_right (10 ^ (17 - precision)) (omega arith) in
        absurd (omega (arith, rounded-IsNearest.below, m, split))
  ]

  pub rounded_carry :
      2 * 10 ^ 18 < 2 * dv.mantissa + 10 ^ (17 - precision) → rounded ≡ 10 ^ suc precision
  rounded_carry many = elim (dec_lt rounded (10 ^ suc precision)) [
    | no ge ↦ omega (arith, rounded_most)
    | yes lt ↦
        let m : suc rounded * 10 ^ (17 - precision) ≤ 10 ^ suc precision * 10 ^ (17 - precision) =
          mul-le-mul_right (10 ^ (17 - precision)) (omega arith) in
        absurd (
          omega (arith, rounded-IsNearest.above, m, split, suc-mul rounded (10 ^ (17 - precision))))
  ]

  abbrev pub number_size : ℕ
  number_size = one_if_set l.sign + scientific_size l.dot precision dv.exponent

  pub plan_e-sizes :
      (l.size < 2 ^ 32)
      × (l.size ≡ l.padding + (l.pad_zeroes + number_size))
      × (l.padding ≡ (
          if cs.pad_with_zeroes && not cs.left_justify
          then 0
          else cs.minimum_field_width - number_size))
      × (l.pad_zeroes ≡ (
          if cs.pad_with_zeroes && not cs.left_justify
          then cs.minimum_field_width - number_size
          else 0))
  unfolding plan_e
  plan_e-sizes =
      sizes cs.minimum_field_width _ number_size (cs.pad_with_zeroes && not cs.left_justify)
        h.width_small
        (add_sizes (one_if_set l.sign) (if l.dot then 1 else 0) precision
          (exponent_digits (exponent_parts dv.exponent).1))
        (size_bound (one_if_set l.sign) precision (exponent_parts dv.exponent).1 l.dot
          (one_if_set_bound l.sign) h.precision_small)

  pub plan_e-IsExact : IsExact l dv.exponent cs
  unfolding plan_e
  plan_e-IsExact =
      let (small, sum, p, z) = plan_e-sizes in
      record {
        small = small;
        sum = sum;
        most = rw plan_e-mantissa rounded_most;
        stay = λ left. z ∙ ground arith;
      }
