-- ===== src/Ntoa/Float/General/Scientific.antt =====
-- `ftoa_base10_g` of reckless/src/ntoa.cpp where it prints an exponent.
use native.Mathlib.Nat.{mul-le-mul_right, mul_assoc, mul-mod_left, pow-succ', one-le-pow}
use native.Mathlib.Decide.{dec_lt}
use reckless.Prelude.{
  ℕ, suc, ◌+◌, ◌-◌, ◌*◌, ◌/◌, ◌%◌, ◌≤◌, ◌<◌, ◌^◌, ◌≡◌, ◌≢◌, arith, false, ap, ◌∙◌, sym, inl, inr,
  ◌⊎◌, pow-add,
}
use reckless.Prelude.Int.{nat_abs}
use reckless.Output.{Buffer, Outcome}
use reckless.Output.Appends.{Appends}
use reckless.Ntoa.Significand.{Decimal18, rounded_rshift}
use reckless.Ntoa.Significand.Round.{IsNearest, rounded_rshift-IsNearest, power-eq-pow}
use reckless.Ntoa.Itoa.{ConversionSpecification}
use reckless.Ntoa.Itoa.Laws.{CountsDecimal}
use reckless.Ntoa.Float.{Category, fp_finite, ftoa_base10_g, is_plain, precision_g}
use reckless.Ntoa.Float.Exponent.Plan.{IsScientific, rounded_below}
use reckless.Ntoa.Float.Exponent.Field.{sign_field, scientific_form, exponent_form}
use reckless.Ntoa.Float.Exponent.Refine.{e_normal-Appends}
use reckless.Ntoa.Float.General.{precision_g_bound}
use reckless.Ntoa.Float.General.Trimmed.{
  trailing_zeroes, precision_scientific, significand, zeroes_bound, precision_lem, same_value,
}

-- The digits `n` with an exponent, behind the first of which `precision` more follow.
pub record PrintsScientific (b : Buffer) (dv : Decimal18) (cs : ConversionSpecification)
    (n precision : ℕ) (s : b.State) (o : Outcome b.Error b.State (Unit {0})) : Type 0 where
  pub digits : ℕ
  pub counts : CountsDecimal digits (nat_abs dv.exponent)
  pub printed :
      Appends b
        (sign_field cs dv.sign (
          scientific_form cs.alternative_form
            (b'0' + n / 10 ^ precision)
            n
            precision
            (exponent_form digits dv.exponent)))
        s
        o

-- Of `p` digits those are left that are not zeroes at the end.
pub record IsTrimmed (dv : Decimal18) (p n precision : ℕ) : Type 0 where
  pub zeroes : ℕ
  pub shares : suc precision + zeroes ≡ p
  pub nearest : IsNearest dv.mantissa (10 ^ (18 - p)) (n * 10 ^ zeroes)
  pub one_digit : n < 10 ^ suc precision
  pub last_digit : (precision ≡ 0) ⊎ (n % 10 ≢ 0)

-- A product with a power of ten is a multiple of the next power only if the number ends in a zero.
next_zero : (n z : ℕ) → n % 10 ≡ 0 → n * 10 ^ z % 10 ^ suc z ≡ 0
next_zero n z h =
    let e : n ≡ n / 10 * 10 = omega arith in
    ap (λ t. t * 10 ^ z % 10 ^ suc z) e
    ∙ ap (λ t. t % 10 ^ suc z)
        (mul_assoc (n / 10) 10 (10 ^ z) ∙ ap (λ t. n / 10 * t) (sym (pow-succ' 10 z)))
    ∙ mul-mod_left (n / 10) (10 ^ suc z)

module _ (dv : Decimal18) (cs : ConversionSpecification) (a : cs.alternative_form ≡ false)
    (int : precision_g cs < 2 ^ 31)
    (few : 2 * dv.mantissa + 10 ^ (18 - precision_g cs) < 2 * 10 ^ 18) where
  abbrev n : ℕ
  n = rounded_rshift dv.sign dv.mantissa (17 - precision_scientific dv cs)

  abbrev most : precision_g cs ≤ 18
  most = (precision_g_bound cs a int).1

  small : dv.mantissa < 10 ^ 18
  small = omega (arith, one-le-pow (18 - precision_g cs) 10 (omega arith))

  same : n * 10 ^ trailing_zeroes dv cs ≡ significand dv cs
  same = same_value dv cs most small

  significand_below :
      cs.minimum_field_width < 2 ^ 32
      → nat_abs dv.exponent < 1000
      → significand dv cs < 10 ^ precision_g cs
  significand_below width exponent =
      let (some, top) = precision_g_bound cs a int in
      let e : 17 - (precision_g cs - 1) ≡ 18 - precision_g cs = omega arith in
      let e' : suc (precision_g cs - 1) ≡ precision_g cs = omega arith in
      let h : IsScientific dv (precision_g cs - 1) cs = record {
        width_small = width;
        precision_small = omega arith;
        exponent_small = exponent;
        mantissa_small = small;
      } in
      let below = rounded_below dv (precision_g cs - 1) cs h (rw e few) in rw (e, e') at below

  one_digit_first :
      significand dv cs < 10 ^ precision_g cs → n < 10 ^ suc (precision_scientific dv cs)
  one_digit_first below =
      let z : ℕ = trailing_zeroes dv cs in
      let q : ℕ = suc (precision_scientific dv cs) in
      let (fewer, all, next) = zeroes_bound dv cs most in
      let e : precision_g cs ≡ q + z = omega (arith, precision_lem dv cs most) in
      let p : 10 ^ precision_g cs ≡ 10 ^ q * 10 ^ z = ap (λ k. 10 ^ k) e ∙ pow-add 10 q z in
      elim (dec_lt n (10 ^ q)) [
        | yes lt ↦ lt
        | no ge ↦
            let m : 10 ^ q * 10 ^ z ≤ n * 10 ^ z = mul-le-mul_right (10 ^ z) (omega arith) in
            absurd (omega (arith, m, p, same, below))
      ]

  last_digit_first : (precision_scientific dv cs ≡ 0) ⊎ (n % 10 ≢ 0)
  last_digit_first =
      let z : ℕ = trailing_zeroes dv cs in
      let (fewer, all, next) = zeroes_bound dv cs most in
      let e = precision_lem dv cs most in
      elim (dec_lt (suc z) (precision_g cs)) [
        | no ge ↦ inl (omega (arith, e, fewer))
        | yes lt ↦ inr (λ h. next a lt (
            ap (λ t. significand dv cs % t) (power-eq-pow (suc z) (omega (arith, most)))
            ∙ ap (λ t. t % 10 ^ suc z) (sym same)
            ∙ next_zero n z h))
      ]

  n-IsTrimmed :
      cs.minimum_field_width < 2 ^ 32
      → nat_abs dv.exponent < 1000
      → IsTrimmed dv (precision_g cs) n (precision_scientific dv cs)
  n-IsTrimmed width exponent =
      let (fewer, all, next) = zeroes_bound dv cs most in
      record {
        zeroes = trailing_zeroes dv cs;
        shares = omega (arith, precision_lem dv cs most);
        nearest = rw same (
            rounded_rshift-IsNearest dv.sign dv.mantissa (18 - precision_g cs) small (omega arith));
        one_digit = one_digit_first (significand_below width exponent);
        last_digit = last_digit_first;
      }

module _ (b : Buffer) {D : Type 0} (classify : D → Category) where
  -- Not in the alternative form, for a finite value with a decimal exponent below -4, or not below
  -- the precision that `ftoa_base10_g` works with, which as an `int` is not negative, and below 1000 either way, a mantissa that is
  -- more than half a unit of that precision below 10^18, and a width below 2^32: it appends digits
  -- with an exponent; or, if the buffer fails, a first part of that. The digits with the zeroes
  -- that were left out are the nearest number of that precision, and the last of them is not a zero
  -- unless it is the only one.
  pub ftoa_base10_g-trims :
      (value : D) (dv : Decimal18) (cs : ConversionSpecification) (s : b.State)
      → classify value ≡ fp_finite dv
      → is_plain (precision_g cs) dv.exponent ≡ false
      → cs.alternative_form ≡ false
      → precision_g cs < 2 ^ 31
      → cs.minimum_field_width < 2 ^ 32
      → nat_abs dv.exponent < 1000
      → 2 * dv.mantissa + 10 ^ (18 - precision_g cs) < 2 * 10 ^ 18
      → (n precision : ℕ) × IsTrimmed dv (precision_g cs) n precision
        × PrintsScientific b dv cs n precision s (ftoa_base10_g b classify value cs s)
  unfolding ftoa_base10_g
  ftoa_base10_g-trims value dv cs s e plain a int width exponent few =
      let (some, most) = precision_g_bound cs a int in
      let (below, all, next) = zeroes_bound dv cs most in
      let lem = precision_lem dv cs most in
      let positive = one-le-pow (18 - precision_g cs) 10 (omega arith) in
      let h : IsScientific dv (precision_scientific dv cs) cs = record {
        width_small = width;
        precision_small = omega (arith, lem);
        exponent_small = exponent;
        mantissa_small = omega (arith, positive);
      } in
      let (digits, counts, p) = e_normal-Appends b dv (precision_scientific dv cs) cs s h in
      (
        rounded_rshift dv.sign dv.mantissa (17 - precision_scientific dv cs),
        precision_scientific dv cs,
        n-IsTrimmed dv cs a int few width exponent,
        rw (ftoa_base10_g, e, plain) (record { digits = digits; counts = counts; printed = p }),
      )
