-- ===== src/Ntoa/Float/General/Trimmed.antt =====
-- The form with an exponent in `ftoa_base10_g` of reckless/src/ntoa.cpp: without trailing zeroes,
-- it is still the value rounded to the digits that are asked for.
use native.Mathlib.Nat.{
  div-add-mod', pow-le-pow_right, mul_assoc, mul-le-mul_right, suc-mul, one-le-pow, pow-suc,
}
use native.Mathlib.Decide.{dec_lt}
use reckless.Prelude.{
  ℕ, zero, suc, ◌+◌, ◌-◌, ◌*◌, ◌/◌, ◌%◌, ◌≤◌, ◌<◌, ◌^◌, ◌≡◌, ◌≢◌, arith, Bool, false, if◌then◌else◌,
  ap, ◌∙◌, sym, inl, inr, Bool-cases, sub32, pow-add,
}
use reckless.Ntoa.Itoa.{ConversionSpecification}
use reckless.Ntoa.Float.{precision_g}
use reckless.Ntoa.Float.General.{precision_g_positive}
use reckless.Ntoa.Significand.{Decimal18, rounded_rshift, count_trailing_zeroes, power}
use reckless.Ntoa.Significand.Round.{
  IsNearest, rounded_rshift-IsNearest, count_trailing_zeroes-zeroes, power-eq-pow,
}

-- Between multiples of a divisor that are nearest to one value for a coarser divisor there is no
-- choice.
coarse :
    (v p w a n : ℕ)
    → 0 < p
    → 2 * p ≤ w
    → 2 * (a * w) ≤ 2 * v + p
    → 2 * v ≤ 2 * (a * w) + p
    → IsNearest v w n
    → n ≡ a
coarse v p w a n positive big below above near = elim (dec_lt n a) [
  | yes lt ↦
      let m : suc n * w ≤ a * w = mul-le-mul_right w lt in
      absurd (omega (arith, near.above, suc-mul n w, m))
  | no ge ↦ elim (dec_lt a n) [
    | yes gt ↦
        let m : suc a * w ≤ n * w = mul-le-mul_right w gt in
        absurd (omega (arith, near.below, suc-mul a w, m))
    | no le ↦ omega arith
  ]
]

-- Rounding to fewer digits, where those that go are zeroes after rounding, loses nothing.
trimmed :
    (sign : Bool) (mantissa k z : ℕ)
    → mantissa < 10 ^ 18
    → z + k < 19
    → rounded_rshift sign mantissa k % power z ≡ 0
    → rounded_rshift sign mantissa (z + k) * 10 ^ z ≡ rounded_rshift sign mantissa k
trimmed sign mantissa k zero h short e = let e' : 0 + k ≡ k = omega arith in rw e' (omega arith)
trimmed sign mantissa k (suc z) h short e =
    let n : ℕ = rounded_rshift sign mantissa k in
    let a : ℕ = n / 10 ^ suc z in
    let near = rounded_rshift-IsNearest sign mantissa k h (omega arith) in
    let whole : a * 10 ^ suc z ≡ n =
      let e' : n % 10 ^ suc z ≡ 0 =
        ap (λ t. n % t) (sym (power-eq-pow (suc z) (omega arith))) ∙ e in
      omega (arith, div-add-mod' n (10 ^ suc z), e') in
    let p = one-le-pow k 10 (omega arith) in
    let pz = one-le-pow z 10 (omega arith) in
    let scale : a * 10 ^ (suc z + k) ≡ n * 10 ^ k =
      ap (λ t. a * t) (pow-add 10 (suc z) k)
      ∙ sym (mul_assoc a (10 ^ suc z) (10 ^ k))
      ∙ ap (λ t. t * 10 ^ k) whole in
    let big : 2 * 10 ^ k ≤ 10 ^ (suc z + k) =
      let more : 10 ^ k ≤ 10 ^ (z + k) = pow-le-pow_right (omega arith) {i = k} (omega arith) in
      let e' : suc z + k ≡ suc (z + k) = omega arith in
      rw e' (omega (arith, more, pow-suc 10 (z + k))) in
    let same =
      coarse mantissa (10 ^ k) (10 ^ (suc z + k)) a (rounded_rshift sign mantissa (suc z + k)) p big
        (omega (arith, scale, near.below)) (omega (arith, scale, near.above))
        (rounded_rshift-IsNearest sign mantissa (suc z + k) h short) in
    ap (λ t. t * 10 ^ suc z) same ∙ whole

-- The zeroes that are left out, and the digits that are left behind the first.
abbrev pub trailing_zeroes : Decimal18 → ConversionSpecification → ℕ
trailing_zeroes dv cs =
    if cs.alternative_form then 0 else count_trailing_zeroes dv (sub32 18 (precision_g cs))

abbrev pub precision_scientific : Decimal18 → ConversionSpecification → ℕ
precision_scientific dv cs = sub32 (sub32 (precision_g cs) 1) (trailing_zeroes dv cs)

-- The value rounded to the digits that are asked for.
abbrev pub significand : Decimal18 → ConversionSpecification → ℕ
significand dv cs = rounded_rshift dv.sign dv.mantissa (18 - precision_g cs)

module _ (dv : Decimal18) (cs : ConversionSpecification) (most : precision_g cs ≤ 18) where
  pub zeroes_bound :
      (trailing_zeroes dv cs < precision_g cs)
      × (significand dv cs % power (trailing_zeroes dv cs) ≡ 0)
      × (cs.alternative_form ≡ false
          → suc (trailing_zeroes dv cs) < precision_g cs
          → significand dv cs % power (suc (trailing_zeroes dv cs)) ≢ 0)
  zeroes_bound =
      let some = precision_g_positive cs in
      elim (Bool-cases cs.alternative_form) [
        | inl a ↦ simp a (some, omega arith, λ f. absurd (ground arith))
        | inr a ↦
            let e : sub32 18 (precision_g cs) ≡ 18 - precision_g cs = omega arith in
            let (few, all, next) =
              count_trailing_zeroes-zeroes dv (18 - precision_g cs) (omega arith) in
            simp (a, e) (omega (arith, few), all, λ f more. next (omega arith))
      ]

  pub precision_lem : precision_scientific dv cs ≡ precision_g cs - 1 - trailing_zeroes dv cs
  precision_lem = let (few, all, next) = zeroes_bound in omega arith

  -- Nothing is lost with the zeroes.
  pub same_value :
      dv.mantissa < 10 ^ 18
      → rounded_rshift dv.sign dv.mantissa (17 - precision_scientific dv cs)
          * 10 ^ trailing_zeroes dv cs
        ≡ significand dv cs
  same_value h =
      let (few, all, next) = zeroes_bound in
      let e : 17 - precision_scientific dv cs ≡ trailing_zeroes dv cs + (18 - precision_g cs) =
        omega (arith, precision_lem) in
      rw e (
        trimmed dv.sign dv.mantissa (18 - precision_g cs) (trailing_zeroes dv cs) h (omega arith)
          all)
