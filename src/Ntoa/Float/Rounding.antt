-- ===== src/Ntoa/Float/Rounding.antt =====
-- The number that is left of the 18 digits of reckless/src/ntoa.cpp at a given precision.
use native.Mathlib.Nat.{mul-le-mul_right, pow-suc, one-le-pow, suc-mul}
use native.Mathlib.Decide.{dec_le}
use reckless.Prelude.{
  ℕ, zero, suc, ◌+◌, ◌-◌, ◌*◌, ◌^◌, ◌≤◌, ◌<◌, ◌≡◌, arith, min, Bool, ◌⊎◌, inl, inr, pow-add, sym,
  ◌∙◌, ap,
}
use reckless.Prelude.Int.{ℤ, pos, negsuc}
use reckless.Ntoa.Significand.{Decimal18, rounded_rshift}
use reckless.Ntoa.Significand.Round.{IsNearest, rounded_rshift-IsNearest}

-- Zero, or 18 digits of which the first is not 0.
abbrev pub IsDecimal18 : Decimal18 → Type 0
IsDecimal18 dv =
    ((dv.mantissa ≡ 0) × (dv.exponent ≡ pos 0))
    ⊎ ((10 ^ 17 ≤ dv.mantissa) × (dv.mantissa < 10 ^ 18))

-- 10^(exponent - 17 + precision) as a quotient of two powers.
abbrev pub scale_up : ℤ → ℕ → ℕ
scale_up (pos n) precision = n + precision - 17
scale_up (negsuc n) precision = precision - (18 + n)

abbrev pub scale_down : ℤ → ℕ → ℕ
scale_down (pos n) precision = 17 - (n + precision)
scale_down (negsuc n) precision = 18 + n - precision

-- The units of the last place that is printed. At most the 18 digits are taken away.
abbrev pub units : Decimal18 → ℕ → ℕ
units dv precision =
    rounded_rshift dv.sign dv.mantissa (min 18 (scale_down dv.exponent precision))
    * 10 ^ scale_up dv.exponent precision

-- `n` is nearest to the value of `dv`, counted in units of 10^-precision.
abbrev pub IsRounded : Decimal18 → ℕ → ℕ → Type 0
IsRounded dv precision n =
    IsNearest (dv.mantissa * 10 ^ scale_up dv.exponent precision)
      (10 ^ scale_down dv.exponent precision) n

small : (dv : Decimal18) → IsDecimal18 dv → dv.mantissa < 10 ^ 18
small dv (inl (e, h)) = omega (arith, e)
small dv (inr (l, h)) = h

-- A value below, or not below, a multiple of the divisor.
pub nearest_below : (v d r q : ℕ) → 0 < d → v < q * d → IsNearest v d r → r ≤ q
nearest_below v d r q positive h n = elim (dec_le r q) [
  | yes le ↦ le
  | no gt ↦
      let m : suc q * d ≤ r * d = mul-le-mul_right d (omega arith) in
      absurd (omega (arith, n.below, suc-mul q d, m))
]

pub nearest_above : (v d r q : ℕ) → 0 < d → q * d ≤ v → IsNearest v d r → q ≤ r
nearest_above v d r q positive h n = elim (dec_le q r) [
  | yes le ↦ le
  | no gt ↦
      let m : suc r * d ≤ q * d = mul-le-mul_right d (omega arith) in
      absurd (omega (arith, n.above, suc-mul r d, m))
]

pub split_power : (d : ℕ) → d ≤ 18 → 10 ^ d * 10 ^ (18 - d) ≡ 10 ^ 18
split_power d h =
    sym (pow-add 10 d (18 - d)) ∙ ap (λ k. 10 ^ k) (let e : d + (18 - d) ≡ 18 = omega arith in e)

-- What is left when all but `digits` digits are taken away.
pub rounded_upper :
    (sign : Bool) (mantissa digits : ℕ)
    → digits ≤ 18
    → mantissa < 10 ^ 18
    → rounded_rshift sign mantissa (18 - digits) ≤ 10 ^ digits
rounded_upper sign mantissa digits h m =
    nearest_below mantissa (10 ^ (18 - digits)) _ (10 ^ digits)
      (one-le-pow (18 - digits) 10 (omega arith)) (omega (arith, split_power digits h))
      (rounded_rshift-IsNearest sign mantissa (18 - digits) m (omega arith))

pub tenth : (a b : ℕ) → a * 10 * b ≡ 10 * (a * b)
tenth a b = grind arith

pub rounded_lower :
    (sign : Bool) (mantissa digits : ℕ)
    → digits < 18
    → 10 ^ 17 ≤ mantissa
    → mantissa < 10 ^ 18
    → 10 ^ digits ≤ rounded_rshift sign mantissa (18 - suc digits)
rounded_lower sign mantissa digits h l m =
    let s =
      ap (λ t. t * 10 ^ (18 - suc digits)) (sym (pow-suc 10 digits)) ∙ split_power (suc digits) h in
    let e = tenth (10 ^ digits) (10 ^ (18 - suc digits)) in
    nearest_above mantissa (10 ^ (18 - suc digits)) _ (10 ^ digits)
      (one-le-pow (18 - suc digits) 10 (omega arith)) (omega (arith, s, e))
      (rounded_rshift-IsNearest sign mantissa (18 - suc digits) m (omega arith))

pub rounded_none :
    (sign : Bool) (mantissa : ℕ) → mantissa < 10 ^ 18 → rounded_rshift sign mantissa 0 ≡ mantissa
rounded_none sign mantissa h =
    let n = rounded_rshift-IsNearest sign mantissa 0 h (omega arith) in
    omega (arith, n.below, n.above)

scaled :
    (sign : Bool) (mantissa up down : ℕ)
    → mantissa < 10 ^ 18
    → down ≤ 18
    → (up ≡ 0) ⊎ (down ≡ 0)
    → IsNearest
        (mantissa * 10 ^ up)
        (10 ^ down)
        (rounded_rshift sign mantissa (min 18 down) * 10 ^ up)
scaled sign mantissa up down h short (inl e) =
    let n = rounded_rshift-IsNearest sign mantissa down h (omega arith) in
    let e1 : min 18 down ≡ down = omega arith in
    let e2 : mantissa * 10 ^ 0 ≡ mantissa = omega arith in
    let e3 : rounded_rshift sign mantissa down * 10 ^ 0 ≡ rounded_rshift sign mantissa down =
      omega arith in
    rw (e, e1, e2, e3) n
scaled sign mantissa up down h short (inr e) =
    rw (e, rounded_none sign mantissa h) (record { below = omega arith; above = omega arith })

one_way : (e : ℤ) (precision : ℕ) → (scale_up e precision ≡ 0) ⊎ (scale_down e precision ≡ 0)
one_way (pos n) precision = ground arith
one_way (negsuc n) precision = ground arith

-- The units that are printed are nearest to the value, where no more than its 18 digits are cut off.
pub units-IsRounded :
    (dv : Decimal18) (precision : ℕ)
    → IsDecimal18 dv
    → scale_down dv.exponent precision ≤ 18
    → IsRounded dv precision (units dv precision)
units-IsRounded dv precision d h =
    scaled dv.sign dv.mantissa _ _ (small dv d) h (one_way dv.exponent precision)

pub rounded_zero : (sign : Bool) (k : ℕ) → k < 19 → rounded_rshift sign 0 k ≡ 0
rounded_zero sign k h =
    let n = rounded_rshift-IsNearest sign 0 k (omega arith) h in
    let p = one-le-pow k 10 (omega arith) in
    elim (dec_le (rounded_rshift sign 0 k) 0) [
      | yes le ↦ omega arith
      | no gt ↦
          let m : 1 * 10 ^ k ≤ rounded_rshift sign 0 k * 10 ^ k =
            mul-le-mul_right (10 ^ k) (omega arith) in
          absurd (omega (arith, n.below, m, p))
    ]

-- At least one digit stays, and the first of them is not 0.
pub rounded_least :
    (sign : Bool) (mantissa digits : ℕ)
    → 0 < digits
    → digits ≤ 18
    → 10 ^ 17 ≤ mantissa
    → mantissa < 10 ^ 18
    → 10 ^ digits ≤ 10 * rounded_rshift sign mantissa (18 - digits)
rounded_least sign mantissa zero some h l m = absurd (omega arith)
rounded_least sign mantissa (suc d) some h l m =
    omega (arith, rounded_lower sign mantissa d (omega arith) l m, pow-suc 10 d)
