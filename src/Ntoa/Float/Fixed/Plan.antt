-- ===== src/Ntoa/Float/Fixed/Plan.antt =====
-- What `ftoa_base10_f_normal` of reckless/src/ntoa.cpp computes before it reserves the memory.
use native.Mathlib.Nat.{mul_assoc}
use reckless.Prelude.{
  ℕ, suc, ◌+◌, ◌-◌, ◌*◌, ◌≤◌, ◌<◌, ◌^◌, ◌≡◌, refl, arith, false, not, ◌||◌, ◌&&◌, ap, ◌∙◌, sym, inl,
  inr, Bool-cases, leb, ◌==◌, if◌then◌else◌, pow-add, min, ◌%◌, sub32, add32,
}
use reckless.Prelude.Int.{ℤ, pos, negsuc, nat_abs}
use reckless.Ntoa.Significand.{Decimal18, rounded_rshift}
use reckless.Ntoa.Itoa.{ConversionSpecification, one_if_set}
use reckless.Ntoa.Float.{Places, places, make_room, plan_f, FloatLayout}
use reckless.Ntoa.Float.Rounding.{
  IsDecimal18, units, scale_up, scale_down, rounded_upper, rounded_least, rounded_none,
  rounded_zero,
}
use reckless.Ntoa.Float.Sizes.{sizes, add_sizes, size_bound, one_if_set_bound}
use reckless.Ntoa.Float.Fixed.Shares.{IsShared}
use reckless.Ntoa.Float.Fixed.Carry.{IsDraft, settle, settle-IsShared}

-- The digits that stay when the mantissa is rounded, and the zeroes behind them.
abbrev kept_digits : Places → ℕ
kept_digits p = p.digits_before_dot + p.digits_after_dot

abbrev suffix_of : ℕ → Places → ℕ
suffix_of precision p = sub32 precision (add32 p.zeroes_after_dot p.digits_after_dot)

abbrev left_of : Decimal18 → ℕ → ℕ
left_of dv precision =
    rounded_rshift dv.sign dv.mantissa (18 - kept_digits (places dv.exponent dv.mantissa precision))

-- The shares of the digits add up to the precision, and agree with the scale of the number.
places_sum :
    (e : ℤ) (m precision : ℕ)
    → precision < 2 ^ 32
    → let p = places e m precision in
      (p.zeroes_after_dot + p.digits_after_dot + suffix_of precision p ≡ precision)
      × (kept_digits p ≤ 18)
unfolding places
places_sum (pos n) m precision small = ground arith
places_sum (negsuc n) m precision small = ground arith

places_scale :
    (e : ℤ) (m precision : ℕ)
    → precision < 2 ^ 32
    → 0 < m
    → let p = places e m precision in 18 - kept_digits p ≡ min 18 (scale_down e precision)
unfolding places
places_scale (pos n) m precision small h = ground arith
places_scale (negsuc n) m precision small h = ground arith

-- Which of the three shapes the places have, for a mantissa that is not 0.
data Shape (e : ℤ) (precision suffix : ℕ) (p : Places) : Type 0 where
  all_in_front :
      p.digits_before_dot ≡ 18
      → p.digits_after_dot ≡ 0
      → suffix ≡ 0
      → p.zeroes_before_dot + precision ≡ scale_up e precision
      → Shape e precision suffix p
  around :
      0 < p.digits_before_dot
      → p.zeroes_before_dot ≡ 0
      → p.zeroes_after_dot ≡ 0
      → suffix ≡ scale_up e precision
      → Shape e precision suffix p
  all_behind :
      p.digits_before_dot ≡ 0
      → p.zeroes_before_dot ≡ 1
      → suffix ≡ scale_up e precision
      → Shape e precision suffix p

places-Shape :
    (e : ℤ) (m precision : ℕ)
    → precision < 2 ^ 32
    → 0 < m
    → let p = places e m precision in Shape e precision (suffix_of precision p) p
unfolding places
places-Shape (negsuc n) m precision small h = all_behind refl refl (ground arith)
places-Shape (pos n) m precision small h = elim (Bool-cases (leb 17 n)) [
  | inl big ↦ rw big (all_in_front refl refl (omega arith) (ground arith))
  | inr low ↦
      let e : (m == 0) ≡ false = ground arith in
      rw (low, e) (around (omega arith) refl refl (ground arith))
]

no_units : (a b x y : ℕ) → a ≡ 0 → b ≡ 0 → a * x ≡ b * y
no_units a b x y e e' = rw (e, e') (omega arith)

module _ (dv : Decimal18) (precision : ℕ) (small : precision < 2 ^ 32) where
  abbrev drafted_places : Places
  drafted_places = places dv.exponent dv.mantissa precision

  -- What is left of the mantissa, scaled, is the number of units.
  left-units :
      0 < dv.mantissa
      → units dv precision ≡ left_of dv precision * 10 ^ scale_up dv.exponent precision
  left-units h =
      ap (λ k. rounded_rshift dv.sign dv.mantissa k * 10 ^ scale_up dv.exponent precision)
        (sym (places_scale dv.exponent dv.mantissa precision small h))

  Shape-IsDraft :
      10 ^ 17 ≤ dv.mantissa
      → dv.mantissa < 10 ^ 18
      → Shape dv.exponent precision (suffix_of precision drafted_places) drafted_places
      → IsDraft precision
          (units dv precision)
          drafted_places
          (left_of dv precision)
          (suffix_of precision drafted_places)
  Shape-IsDraft low high shape =
      let (sum, most) = places_sum dv.exponent dv.mantissa precision small in
      let upper = rounded_upper dv.sign dv.mantissa (kept_digits drafted_places) most high in
      let u = left-units (omega arith) in
      record {
        sum = sum;
        most = most;
        at_most = upper;
        kind = elim shape [
          | all_in_front e18 none no_suffix e ↦
              let e' : 18 - kept_digits drafted_places ≡ 0 = omega arith in
              let q : left_of dv precision ≡ dv.mantissa =
                ap (rounded_rshift dv.sign dv.mantissa) e'
                ∙ rounded_none dv.sign dv.mantissa high in
              inl (
                e18,
                none,
                no_suffix,
                omega arith,
                omega arith,
                u
                    ∙ ap (λ k. left_of dv precision * 10 ^ k) (sym e)
                    ∙ ap (λ t. left_of dv precision * t)
                        (pow-add 10 drafted_places.zeroes_before_dot precision)
                    ∙ sym (
                        mul_assoc (left_of dv precision) (10 ^ drafted_places.zeroes_before_dot)
                          (10 ^ precision)),
              )
          | around some_digits no_zeroes none e ↦ inr (
              inl (
                some_digits,
                no_zeroes,
                none,
                rounded_least dv.sign dv.mantissa (kept_digits drafted_places) (omega arith) most
                    low high,
                u ∙ ap (λ k. left_of dv precision * 10 ^ k) (sym e),
              ))
          | all_behind none one_zero e ↦
              inr (inr (none, one_zero, u ∙ ap (λ k. left_of dv precision * 10 ^ k) (sym e)))
        ];
      }

  zero-IsDraft :
      dv.mantissa ≡ 0
      → dv.exponent ≡ pos 0
      → IsDraft precision
          (units dv precision)
          drafted_places
          (left_of dv precision)
          (suffix_of precision drafted_places)
  unfolding places
  zero-IsDraft m e =
      let (sum, most) = places_sum dv.exponent dv.mantissa precision small in
      let z =
        λ (k : ℕ) (h : k < 19). ap (λ t. rounded_rshift dv.sign t k) m ∙ rounded_zero dv.sign k h in
      let q = z (18 - kept_digits drafted_places) (omega arith) in
      let n = z (min 18 (scale_down dv.exponent precision)) (omega arith) in
      record {
        sum = sum;
        most = most;
        at_most = omega (arith, q);
        kind = inr (inr (simp (m, e) refl, simp (m, e) refl, no_units _ _ _ _ n q));
      }

  pub places-IsDraft :
      IsDecimal18 dv
      → IsDraft precision
          (units dv precision)
          drafted_places
          (left_of dv precision)
          (suffix_of precision drafted_places)
  places-IsDraft (inl (m, e)) = zero-IsDraft m e
  places-IsDraft (inr (low, high)) =
      Shape-IsDraft low high (places-Shape dv.exponent dv.mantissa precision small (omega arith))

-- The characters in front of the dot.
settle_front :
    (e : ℤ) (m precision q : ℕ)
    → let p = settle (places e m precision) q in
      p.digits_before_dot + p.zeroes_before_dot ≤ nat_abs e + 20
unfolding places make_room
settle_front (pos n) m precision q = ground arith
settle_front (negsuc n) m precision q = ground arith

-- The numbers that are worked with are `unsigned`.
pub record IsFixed (dv : Decimal18) (precision : ℕ) (cs : ConversionSpecification) : Type 0 where
  pub width_small : cs.minimum_field_width < 2 ^ 32
  pub size_small : nat_abs dv.exponent + precision + 32 < 2 ^ 32
  pub decimal : IsDecimal18 dv

module _ (dv : Decimal18) (precision : ℕ) (cs : ConversionSpecification)
    (h : IsFixed dv precision cs) where
  abbrev l : FloatLayout
  l = plan_f dv precision cs

  pub plan_f-IsShared : IsShared precision (units dv precision) l.places l.mantissa l.suffix_zeroes
  unfolding plan_f
  plan_f-IsShared =
      settle-IsShared precision _ _ _ _
        (places-IsDraft dv precision (omega (arith, h.size_small)) h.decimal)

  pub plan_f-dot : l.dot ≡ (cs.alternative_form || not (precision == 0))
  unfolding plan_f
  plan_f-dot =
      let (sum, most) =
        places_sum dv.exponent dv.mantissa precision (omega (arith, h.size_small)) in
      let e : precision % 2 ^ 32 ≡ precision = omega (arith, h.size_small) in rw (sum, e) refl

  -- The number with its sign, without padding.
  abbrev number_size : ℕ
  number_size =
      one_if_set l.sign
      + (l.places.digits_before_dot
          + (l.places.zeroes_before_dot + (if l.dot then suc precision else 0)))

  pub plan_f-sizes :
      (l.size < 2 ^ 32)
      × (l.size ≡ l.padding + (l.pad_zeroes + number_size))
      × (l.padding ≡ (
          if cs.pad_with_zeroes && not cs.left_justify
          then 0
          else cs.minimum_field_width - number_size))
      × (l.pad_zeroes ≡ (
          if cs.pad_with_zeroes && not cs.left_justify
          then cs.minimum_field_width - number_size
          else 0))
  unfolding plan_f
  plan_f-sizes =
      let shared = plan_f-IsShared in
      let front = settle_front dv.exponent dv.mantissa precision (
        rounded_rshift dv.sign dv.mantissa
          (18 - kept_digits (places dv.exponent dv.mantissa precision))) in
      sizes cs.minimum_field_width _ number_size (cs.pad_with_zeroes && not cs.left_justify)
        h.width_small
        (add_sizes (one_if_set l.sign) l.places.digits_before_dot l.places.zeroes_before_dot
          l.places.zeroes_after_dot l.places.digits_after_dot l.suffix_zeroes precision
          cs.alternative_form l.dot plan_f-dot shared.sum)
        (size_bound (one_if_set l.sign) l.places.digits_before_dot l.places.zeroes_before_dot
          precision (nat_abs dv.exponent) l.dot (one_if_set_bound l.sign) front h.size_small)
