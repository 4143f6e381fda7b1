-- ===== src/Ntoa/Float/Exponent/Refine.antt =====
-- `ftoa_base10_e_normal` of reckless/src/ntoa.cpp against the text that printf prescribes for a
-- number with an exponent.
use native.Mathlib.Nat.{pow-suc, one-le-pow, mul-div_cancel}
use mathlib.Core.Path.{subst}
use reckless.Prelude.{
  ℕ, suc, ◌+◌, ◌-◌, ◌*◌, ◌/◌, ◌<◌, ◌^◌, ◌≡◌, refl, List, [], ◌∷◌, ◌++◌, arith, not, ◌||◌, ap, ◌∙◌,
  sym, ◌==◌, if◌then◌else◌, length,
}
use reckless.Prelude.Int.{nat_abs}
use reckless.Output.{Buffer}
use reckless.Output.Appends.{Appends, emit-Appends}
use reckless.Ntoa.Significand.{Decimal18}
use reckless.Ntoa.Significand.Round.{IsNearest}
use reckless.Ntoa.Digits.Base10.{decimal, decimal-append}
use reckless.Ntoa.Digits.Zeroes.{decimal-zeroes, decimal-zero}
use reckless.Ntoa.Itoa.{ConversionSpecification, one_if_set}
use reckless.Ntoa.Itoa.Text.{sign_text, length-sign_text}
use reckless.Ntoa.Itoa.Laws.{CountsDecimal}
use reckless.Ntoa.Float.{plan_e, ftoa_base10_e_normal, FloatLayout}
use reckless.Ntoa.Float.Exponent.{sign_first, scientific_text, write_e_lem, exponent_text}
use reckless.Ntoa.Float.Exponent.Plan.{
  IsScientific, plan_e-IsExact, plan_e-dot, plan_e-sizes, plan_e-mantissa, rounded,
  rounded-IsNearest, rounded_below, rounded_carry,
}
use reckless.Ntoa.Float.Exponent.Field.{
  sign_field, exponent_form, scientific_form, exponent_lem, sign_from, length-scientific,
  length-sign_first,
}

module _ (dv : Decimal18) (precision : ℕ) (cs : ConversionSpecification)
    (h : IsScientific dv precision cs) where
  abbrev l : FloatLayout
  l = plan_e dv precision cs

  abbrev first : ℕ
  first = b'0' + rounded dv precision cs h / 10 ^ precision

  -- The number without its sign.
  abbrev number : ℕ → List ℕ
  number d =
      scientific_form cs.alternative_form first (rounded dv precision cs h) precision
        (exponent_form d dv.exponent)

  number_text :
      (d : ℕ)
      → exponent_text dv.exponent [] ≡ exponent_form d dv.exponent
      → scientific_text l.dot l.mantissa precision dv.exponent [] ≡ number d
  number_text d e =
      rw (plan_e-mantissa dv precision cs h, plan_e-dot dv precision cs h, e, decimal-append) refl

  field_text :
      (d : ℕ)
      → exponent_text dv.exponent [] ≡ exponent_form d dv.exponent
      → sign_first l cs (scientific_text l.dot l.mantissa precision dv.exponent [])
        ≡ sign_field cs dv.sign (number d)
  unfolding plan_e
  field_text d e =
      let (small, sum, p, z) = plan_e-sizes dv precision cs h in
      let ls = length-scientific l.dot l.mantissa precision dv.exponent in
      sign_from cs.left_justify cs.pad_with_zeroes cs.minimum_field_width l.padding l.pad_zeroes
        (one_if_set l.sign) (sign_text l.sign)
        (scientific_text l.dot l.mantissa precision dv.exponent []) (length-sign_text l.sign)
        (rw ls p) (rw ls z)
      ∙ ap (sign_field cs dv.sign) (number_text d e)

  length-field :
      length (sign_first l cs (scientific_text l.dot l.mantissa precision dv.exponent [])) ≡ l.size
  length-field =
      let (small, sum, p, z) = plan_e-sizes dv precision cs h in
      let ls = length-scientific l.dot l.mantissa precision dv.exponent in
      length-sign_first l cs (scientific_text l.dot l.mantissa precision dv.exponent [])
        (plan_e-IsExact dv precision cs h).stay
      ∙ omega (arith, ls, sum)

-- The digits of a power of ten.
power_digits : (p n : ℕ) → n ≡ 10 ^ suc p → (n / 10 ^ p ≡ 10) × (decimal p n [] ≡ decimal p 0 [])
unfolding decimal
power_digits p n e =
    let e' : n ≡ 10 * 10 ^ p = e ∙ pow-suc 10 p ∙ omega arith in
    let none : p ≡ p + 0 = omega arith in
    (
      ap (λ t. t / 10 ^ p) e' ∙ mul-div_cancel 10 (one-le-pow p 10 (omega arith)),
      ap (λ t. decimal p t []) e'
          ∙ ap (λ k. decimal k (10 * 10 ^ p) []) none
          ∙ decimal-zeroes p 0 10 []
          ∙ sym (decimal-zero p []),
    )

module _ (b : Buffer) where
  -- What is written, with the first character as it comes.
  pub e_normal-Appends :
      (dv : Decimal18) (precision : ℕ) (cs : ConversionSpecification) (s : b.State)
      (h : IsScientific dv precision cs)
      → (d : ℕ) × CountsDecimal d (nat_abs dv.exponent)
        × Appends b
            (sign_field cs dv.sign (
              scientific_form cs.alternative_form
                (b'0' + rounded dv precision cs h / 10 ^ precision)
                (rounded dv precision cs h)
                precision
                (exponent_form d dv.exponent)))
            s
            (ftoa_base10_e_normal b dv precision cs s)
  unfolding ftoa_base10_e_normal plan_e
  e_normal-Appends dv precision cs s h =
      let (d, counts, e) = exponent_lem dv.exponent h.exponent_small in
      let l : FloatLayout = plan_e dv precision cs in
      (
        d,
        counts,
        rw (← field_text dv precision cs h d e) (
            emit-Appends b l.size _ _ s
              (λ mem m. write_e_lem l dv.exponent cs mem (plan_e-IsExact dv precision cs h) m)
              (length-field dv precision cs h)),
      )

  -- For a precision of at most 17, an exponent below 1000 either way, a mantissa below 10^18 that
  -- is more than half a unit below it when `precision` + 1 of its digits are kept, and a width
  -- below 2^32, `ftoa_base10_e_normal` appends the digits of the nearest number, with a dot behind
  -- the first if more follow or the alternative form asks for it, and the exponent with its sign in
  -- at least two digits; or, if the buffer fails, a first part of that. The sign, if there is one
  -- to show, is always the first character, before the padding.
  pub ftoa_base10_e_normal-Appends :
      (dv : Decimal18) (precision : ℕ) (cs : ConversionSpecification) (s : b.State)
      → IsScientific dv precision cs
      → 2 * dv.mantissa + 10 ^ (17 - precision) < 2 * 10 ^ 18
      → (n d : ℕ) × IsNearest dv.mantissa (10 ^ (17 - precision)) n
        × (n < 10 ^ suc precision)
        × CountsDecimal d (nat_abs dv.exponent)
        × Appends b
            (sign_field cs dv.sign (
              scientific_form cs.alternative_form
                (b'0' + n / 10 ^ precision)
                n
                precision
                (exponent_form d dv.exponent)))
            s
            (ftoa_base10_e_normal b dv precision cs s)
  ftoa_base10_e_normal-Appends dv precision cs s h few =
      let (d, counts, p) = e_normal-Appends dv precision cs s h in
      (
        rounded dv precision cs h,
        d,
        rounded-IsNearest dv precision cs h,
        rounded_below dv precision cs h few,
        counts,
        p,
      )

  -- For a precision of at most 17, an exponent below 1000 either way, a width below 2^32, and a
  -- mantissa below 10^18 that is less than half a unit below it when `precision` + 1 of its digits
  -- are kept, `ftoa_base10_e_normal` appends a colon in place of the first digit, zeroes, and the
  -- exponent of the value before rounding; or, if the buffer fails, a first part of that.
  pub ftoa_base10_e_normal-carry :
      (dv : Decimal18) (precision : ℕ) (cs : ConversionSpecification) (s : b.State)
      → IsScientific dv precision cs
      → 2 * 10 ^ 18 < 2 * dv.mantissa + 10 ^ (17 - precision)
      → (d : ℕ) × CountsDecimal d (nat_abs dv.exponent)
        × Appends b
            (sign_field cs dv.sign
              (scientific_form cs.alternative_form b':' 0 precision (exponent_form d dv.exponent)))
            s
            (ftoa_base10_e_normal b dv precision cs s)
  ftoa_base10_e_normal-carry dv precision cs s h many =
      let (d, counts, p) = e_normal-Appends dv precision cs s h in
      let e = rounded_carry dv precision cs h many in
      let (tens, zeroes) = power_digits precision _ e in
      let form = λ (first : ℕ) (digits : List ℕ). sign_field cs dv.sign (
        first
        ∷ ((if not (precision == 0) || cs.alternative_form then b'.' ∷ [] else [])
            ++ (digits ++ exponent_form d dv.exponent))) in
      (
        d,
        counts,
        subst (λ text. Appends b text s (ftoa_base10_e_normal b dv precision cs s))
            (ap (λ t. form (b'0' + t) (decimal precision (rounded dv precision cs h) [])) tens
              ∙ ap (form b':') zeroes)
            p,
      )
