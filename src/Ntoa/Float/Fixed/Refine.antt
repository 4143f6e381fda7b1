-- ===== src/Ntoa/Float/Fixed/Refine.antt =====
-- `ftoa_base10_f_normal` of reckless/src/ntoa.cpp against the text that printf prescribes for a
-- number of which the digits behind the dot are counted.
use reckless.Prelude.{
  ℕ, suc, ◌+◌, ◌-◌, ◌/◌, ◌^◌, ◌≡◌, refl, List, [], ◌∷◌, ◌++◌, append-nil, arith, Bool, false, not,
  ◌||◌, ◌&&◌, ap, ◌∙◌, sym, inl, inr, Bool-cases, ◌==◌, if◌then◌else◌, length, replicate,
  length-append, length-replicate,
}
use reckless.Output.{Buffer}
use reckless.Output.Appends.{Appends, emit-Appends}
use reckless.Ntoa.Significand.{Decimal18}
use reckless.Ntoa.Digits.Base10.{decimal, length-decimal}
use reckless.Ntoa.Itoa.{ConversionSpecification, one_if_set}
use reckless.Ntoa.Itoa.Text.{sign_text, length-sign_text}
use reckless.Ntoa.Itoa.Spec.{pad_left}
use reckless.Ntoa.Itoa.Laws.{CountsDecimal}
use reckless.Ntoa.Float.{plan_f, ftoa_base10_f_normal, FloatLayout}
use reckless.Ntoa.Float.Special.{padded, length-padded}
use reckless.Ntoa.Float.Rounding.{units}
use reckless.Ntoa.Float.Fixed.{IsExact, layout_text, fraction_text, fraction_size, write_f_lem}
use reckless.Ntoa.Float.Fixed.Shares.{fraction_digits, front_digits}
use reckless.Ntoa.Float.Fixed.Plan.{IsFixed, plan_f-IsShared, plan_f-dot, plan_f-sizes}

-- `n` as a decimal number with `precision` digits behind the dot. There is a dot if there are such
-- digits, or if the alternative form asks for it.
abbrev pub point_text : Bool → ℕ → ℕ → ℕ → List ℕ
point_text alternative_form digits n precision =
    pad_left 1 b'0' (decimal digits (n / 10 ^ precision) [])
    ++ (if alternative_form || not (precision == 0) then b'.' ∷ decimal precision n [] else [])

-- A sign and a number in a field of at least the minimum width: filled with spaces on the right if
-- it is left-justified, else with zeroes behind the sign if these are asked for, else with spaces
-- on the left.
abbrev pub signed_field : ConversionSpecification → Bool → List ℕ → List ℕ
signed_field cs negative number =
    let sign = sign_text (if negative then b'-' else cs.plus_sign) in
    let width = cs.minimum_field_width in
    if cs.pad_with_zeroes && not cs.left_justify
    then sign ++ pad_left (width - length sign) b'0' number
    else padded cs.left_justify (width - length (sign ++ number)) (sign ++ number)

no_padding : (left : Bool) (text : List ℕ) → padded left 0 text ≡ text
no_padding left text = elim (Bool-cases left) [ inl e ↦ rw e (append-nil text) | inr e ↦ rw e refl ]

-- Padding with zeroes and padding with spaces, one of which is empty.
field_of :
    (left move : Bool) (width padding pad_zeroes one : ℕ) (sign number : List ℕ)
    → length sign ≡ one
    → padding ≡ (if move then 0 else width - (one + length number))
    → pad_zeroes ≡ (if move then width - (one + length number) else 0)
    → padded left padding (sign ++ (replicate pad_zeroes b'0' ++ number)) ≡ (
        if move
        then sign ++ pad_left (width - length sign) b'0' number
        else padded left (width - length (sign ++ number)) (sign ++ number))
field_of left move width padding pad_zeroes one sign number e e1 e2 = elim (Bool-cases move) [
  | inl m ↦
      let p : padding ≡ 0 = e1 ∙ rw m refl in
      let z : pad_zeroes ≡ width - length sign - length number = e2 ∙ rw (m, ← e) (omega arith) in
      rw (m, p, z) (no_padding left _)
  | inr m ↦
      let p : padding ≡ width - length (sign ++ number) = e1 ∙ rw (m, length-append, ← e) refl in
      let z : pad_zeroes ≡ 0 = e2 ∙ rw m refl in rw (m, p, z) refl
]

exact_sum :
    (l : FloatLayout) (precision : ℕ)
    → l.places.zeroes_after_dot + l.places.digits_after_dot + l.suffix_zeroes ≡ precision
    → l.padding
        + (l.pad_zeroes
            + (one_if_set l.sign
                + (l.places.digits_before_dot
                    + (l.places.zeroes_before_dot + (if l.dot then suc precision else 0)))))
      ≡ l.padding
        + (one_if_set l.sign
            + (l.pad_zeroes
                + (l.places.digits_before_dot + (l.places.zeroes_before_dot + fraction_size l))))
exact_sum l precision e = ground arith

undotted :
    (l : FloatLayout) (precision : ℕ) (alternative : Bool)
    → l.dot ≡ (alternative || not (precision == 0))
    → l.places.zeroes_after_dot + l.places.digits_after_dot + l.suffix_zeroes ≡ precision
    → l.dot ≡ false
    → l.places.digits_after_dot ≡ 0
undotted l precision alternative e sum none = ground arith

length_fraction :
    (t : Bool) (n precision : ℕ)
    → length (if t then b'.' ∷ decimal precision n [] else []) ≡ (if t then suc precision else 0)
length_fraction t n precision = elim (Bool-cases t) [
  | inl e ↦ rw e (omega (arith, length-decimal precision n []))
  | inr e ↦ rw e refl
]

module _ (dv : Decimal18) (precision : ℕ) (cs : ConversionSpecification)
    (h : IsFixed dv precision cs) where
  abbrev l : FloatLayout
  l = plan_f dv precision cs

  fraction_of : fraction_text l [] ≡ (
      if cs.alternative_form || not (precision == 0)
      then b'.' ∷ decimal precision (units dv precision) []
      else [])
  fraction_of =
      rw (plan_f-dot dv precision cs h, fraction_digits (plan_f-IsShared dv precision cs h)) refl

  plan_f-IsExact : IsExact l
  plan_f-IsExact =
      let (small, sum, p, z) = plan_f-sizes dv precision cs h in
      let shared = plan_f-IsShared dv precision cs h in
      let dot = plan_f-dot dv precision cs h in
      record {
        small = small;
        sum = sum ∙ exact_sum l precision shared.sum;
        whole = shared.whole;
        all_whole = λ e. undotted l precision cs.alternative_form dot shared.sum e;
      }

  module _ (digits : ℕ)
      (whole : (rest : List ℕ)
        → decimal l.places.digits_before_dot
            (l.mantissa / 10 ^ l.places.digits_after_dot)
            (replicate l.places.zeroes_before_dot b'0' ++ rest)
          ≡ pad_left 1 b'0' (decimal digits (units dv precision / 10 ^ precision) []) ++ rest) where
    abbrev number : List ℕ
    number = point_text cs.alternative_form digits (units dv precision) precision

    layout_text-number :
        layout_text l [] ≡ sign_text l.sign ++ (replicate l.pad_zeroes b'0' ++ number)
    layout_text-number = rw (whole (fraction_text l []), fraction_of) refl

    length-number :
        length number
        ≡ l.places.digits_before_dot
          + (l.places.zeroes_before_dot + (if l.dot then suc precision else 0))
    length-number =
        let t = cs.alternative_form || not (precision == 0) in
        let fraction : List ℕ =
          if t then b'.' ∷ decimal precision (units dv precision) [] else [] in
        let zeroes : List ℕ = replicate l.places.zeroes_before_dot b'0' in
        ap length (sym (whole fraction))
        ∙ length-decimal l.places.digits_before_dot _ (zeroes ++ fraction)
        ∙ ap (λ k. l.places.digits_before_dot + k)
            (length-append zeroes fraction
              ∙ rw
                  (
                    length-replicate,
                    length_fraction t (units dv precision) precision,
                    plan_f-dot dv precision cs h,
                  )
                  refl)

    field_text :
        padded cs.left_justify l.padding (layout_text l []) ≡ signed_field cs dv.sign number
    unfolding plan_f
    field_text =
        let (small, sum, p, z) = plan_f-sizes dv precision cs h in
        ap (padded cs.left_justify l.padding) layout_text-number
        ∙ field_of cs.left_justify (cs.pad_with_zeroes && not cs.left_justify)
            cs.minimum_field_width l.padding l.pad_zeroes (one_if_set l.sign) (sign_text l.sign)
            number (length-sign_text l.sign) (rw length-number p) (rw length-number z)

    length-layout : length (padded cs.left_justify l.padding (layout_text l [])) ≡ l.size
    length-layout =
        let (small, sum, p, z) = plan_f-sizes dv precision cs h in
        let zeroes : List ℕ = replicate l.pad_zeroes b'0' in
        let lr : length zeroes ≡ l.pad_zeroes = length-replicate l.pad_zeroes b'0' in
        let la = length-append (sign_text l.sign) (zeroes ++ number) in
        let lb = length-append zeroes number in
        length-padded cs.left_justify l.padding (layout_text l [])
        ∙ ap (λ t. l.padding + length t) layout_text-number
        ∙ omega (arith, la, lb, lr, length-sign_text l.sign, length-number, sum)

module _ (b : Buffer) where
  -- For zero or a mantissa of 18 digits, and sizes below 2^32, `ftoa_base10_f_normal` appends the
  -- number that `units` says, as a decimal number with `precision` digits behind the dot in its
  -- field; or, if the buffer fails, a first part of that.
  pub ftoa_base10_f_normal-Appends :
      (dv : Decimal18) (precision : ℕ) (cs : ConversionSpecification) (s : b.State)
      → IsFixed dv precision cs
      → let n = units dv precision in
        (digits : ℕ) × CountsDecimal digits (n / 10 ^ precision)
        × Appends b
            (signed_field cs dv.sign (point_text cs.alternative_form digits n precision))
            s
            (ftoa_base10_f_normal b dv precision cs s)
  unfolding ftoa_base10_f_normal
  ftoa_base10_f_normal-Appends dv precision cs s h =
      let (digits, (counts, whole)) = front_digits (plan_f-IsShared dv precision cs h) in
      let l : FloatLayout = plan_f dv precision cs in
      let x = plan_f-IsExact dv precision cs h in
      let e = field_text dv precision cs h digits whole in
      (
        digits,
        counts,
        rw (← e) (
            emit-Appends b l.size _ _ s (λ mem m. write_f_lem l cs mem x m)
              (length-layout dv precision cs h digits whole)),
      )
