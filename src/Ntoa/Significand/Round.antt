-- ===== src/Ntoa/Significand/Round.antt =====
-- Rounding and trailing zeroes of the 18 digits, in reckless/src/ntoa.cpp.
use native.Mathlib.Nat.{
  div-mul-le_self, lt-div-mul-add, mod-eq-zero_of_dvd, dvd_of_mod-eq-zero, dvd_trans, dvd_refl,
  dvd-mul_right_of_dvd, pow-suc,
}
use native.Mathlib.Decide.{dec_le}
use Prim.Native.Nat.{◌∣◌}
use reckless.Prelude.{
  add32, sub32, ℕ, ◌-◌, zero, suc, ◌+◌, ◌-◌, ◌*◌, ◌/◌, ◌%◌, ◌^◌, ◌≤◌, ◌<◌, ◌≡◌, ◌≢◌, refl, Bool,
  true, false, ltb, ltb→lt, leb, ◌&&◌, ◌==◌, ==_iff, Bool-cases, inl, inr, arith, each_below,
  each_below_lem,
}
use reckless.Ntoa.Significand.{
  Decimal18, rounded_divide, rounded_rshift, count_trailing_zeroes, lowest, power,
  count_trailing_zeroes_after_dot, digits_in_front,
}

-- `q` times the divisor is at most half the divisor away from the value.
pub record IsNearest (value divisor q : ℕ) : Type 0 where
  pub below : 2 * (q * divisor) ≤ 2 * value + divisor
  pub above : 2 * value ≤ 2 * (q * divisor) + divisor

-- For a positive divisor, and a sum of value and divisor below 2^64, `rounded_divide` gives for
-- either sign a quotient whose product with the divisor is at most half the divisor away from the
-- value.
pub rounded_divide-IsNearest :
    (sign : Bool) (value divisor : ℕ)
    → 0 < divisor
    → value + divisor < 2 ^ 64
    → IsNearest value divisor (rounded_divide sign value divisor)
unfolding rounded_divide
rounded_divide-IsNearest false value divisor positive small =
    let n : ℕ = value + divisor / 2 in
    let e : (value + divisor / 2) % 2 ^ 64 ≡ n = omega arith in
    let l = div-mul-le_self n divisor in
    let u = lt-div-mul-add {a = n} positive in
    rw e (record { below = omega (arith, l); above = omega (arith, u) })
rounded_divide-IsNearest true value divisor positive small =
    let n : ℕ = value + (divisor - 1) - divisor / 2 in
    let e : ((value + (divisor - 1)) % 2 ^ 64 + 2 ^ 64 - divisor / 2) % 2 ^ 64 ≡ n = omega arith in
    let l = div-mul-le_self n divisor in
    let u = lt-div-mul-add {a = n} positive in
    rw e (record { below = omega (arith, l); above = omega (arith, u) })

pub power-eq-pow : (x : ℕ) → x < 19 → power x ≡ 10 ^ x
unfolding each_below
power-eq-pow x h = (==_iff _ _).0 (each_below_lem 19 (λ y. power y == 10 ^ y) x h refl)

power_bounds : (k : ℕ) → k < 19 → (0 < power k) × (power k ≤ 10 ^ 18)
unfolding each_below
power_bounds k h =
    ground (arith, each_below_lem 19 (λ y. ltb 0 (power y) && leb (power y) (10 ^ 18)) k h refl)

-- The same for the division by a power of ten.
pub rounded_rshift-IsNearest :
    (sign : Bool) (mantissa k : ℕ)
    → mantissa < 10 ^ 18
    → k < 19
    → IsNearest mantissa (10 ^ k) (rounded_rshift sign mantissa k)
unfolding rounded_rshift
rounded_rshift-IsNearest sign mantissa k h h' =
    let (l, u) = power_bounds k h' in
    rw (← power-eq-pow k h') (rounded_divide-IsNearest sign mantissa (power k) l (omega arith))

-- The lowest place from which on the digits of the mantissa are not all zeroes, or `high` if there
-- is none below it.
pub record IsLowest (mantissa high r : ℕ) : Type 0 where
  pub at_most : r ≤ high
  pub zeroes : (x : ℕ) → x < r → mantissa % power x ≡ 0
  pub digit : r < high → mantissa % power r ≢ 0

pow-dvd-pow : (x k y : ℕ) → k + x ≡ y → 10 ^ x ∣ 10 ^ y
pow-dvd-pow x zero y e = let e' : y ≡ x = omega arith in rw e' (dvd_refl (10 ^ x))
pow-dvd-pow x (suc k) y e =
    let e' : y ≡ suc (k + x) = omega arith in
    rw (e', pow-suc 10 (k + x)) (dvd-mul_right_of_dvd (10 ^ x) (pow-dvd-pow x k (k + x) refl) 10)

-- A number with `y` zeroes at its end has `x` of them for `x` up to `y`.
zeroes_down : (m x y : ℕ) → y < 19 → x ≤ y → m % power y ≡ 0 → m % power x ≡ 0
zeroes_down m x y small h e =
    let e' = rw (power-eq-pow y small) at e in
    rw (power-eq-pow x (omega arith)) (
      mod-eq-zero_of_dvd (10 ^ x) (
        dvd_trans (10 ^ x) (pow-dvd-pow x (y - x) y (omega arith))
          (dvd_of_mod-eq-zero (10 ^ y) e')))

lowest-from :
    (fuel m low high bound : ℕ)
    → high ≤ low + fuel
    → low ≤ high
    → high ≤ bound
    → bound ≤ 19
    → ((x : ℕ) → x < low → m % power x ≡ 0)
    → (high < bound → m % power high ≢ 0)
    → IsLowest m bound (lowest fuel m low high)
unfolding lowest
lowest-from zero m low high bound enough h1 h2 h3 z d =
    let e : low ≡ high = omega arith in
    rw e (record { at_most = h2; zeroes = λ x l. z x (omega arith); digit = d })
lowest-from (suc fuel) m low high bound enough h1 h2 h3 z d = elim (Bool-cases (ltb low high)) [
  | inr last ↦
      let e : low ≡ high = ground arith in
      rw last (rw e (record { at_most = h2; zeroes = λ x l. z x (omega arith); digit = d }))
  | inl more ↦
      let position : ℕ = (low + high) / 2 in
      let l : low < high = ltb→lt low high more in
      rw more (elim (Bool-cases (m % power position == 0)) [
        | inl zero_here ↦ rw zero_here (
            lowest-from fuel m (position + 1) high bound (omega arith) (omega arith) h2 h3
              (λ x l'.
                zeroes_down m x position (omega arith) (omega arith) ((==_iff _ _).0 zero_here))
              d)
        | inr digit_here ↦ rw digit_here (
            lowest-from fuel m low position bound (omega arith) (omega arith) (omega arith) h3 z
              (λ l' e. absurd (ground arith)))
      ])
]

-- For a bound of at most 19, the binary search of `count_trailing_zeroes` ends within `bound`
-- rounds at the lowest exponent below the bound whose power of ten does not divide the mantissa, or
-- at the bound if there is none.
pub lowest-IsLowest : (m high : ℕ) → high ≤ 19 → IsLowest m high (lowest high m 0 high)
lowest-IsLowest m high h =
    lowest-from high m 0 high high (omega arith) (omega arith) (omega arith) h
      (λ x l. absurd (omega arith)) (λ l. absurd (omega arith))

-- The count of zeroes is one less than the lowest exponent that fails.
from_lowest :
    (mantissa high r truncated : ℕ)
    → high ≡ 18 - truncated
    → truncated < 18
    → IsLowest mantissa high r
    → (sub32 r 1 + truncated < 18)
      × (mantissa % power (sub32 r 1) ≡ 0)
      × (suc (sub32 r 1) + truncated < 18 → mantissa % power (suc (sub32 r 1)) ≢ 0)
from_lowest mantissa high zero truncated h short l = absurd (l.digit (omega arith) (omega arith))
from_lowest mantissa high (suc r) truncated h short l =
    let e : sub32 (suc r) 1 ≡ r = omega (arith, l.at_most) in
    rw e (omega (arith, l.at_most), l.zeroes r (omega arith), λ more. l.digit (omega arith))

-- If fewer than 18 digits are truncated, `count_trailing_zeroes` is below the number of digits that
-- are left, the rounded mantissa is a multiple of ten to that power, and, unless no further digit
-- is left, not of ten to the next power.
pub count_trailing_zeroes-zeroes :
    (dv : Decimal18) (truncated : ℕ)
    → truncated < 18
    → let mantissa = rounded_rshift dv.sign dv.mantissa truncated in
      let count = count_trailing_zeroes dv truncated in
      (count + truncated < 18)
      × (mantissa % power count ≡ 0)
      × (suc count + truncated < 18 → mantissa % power (suc count) ≢ 0)
unfolding count_trailing_zeroes
count_trailing_zeroes-zeroes dv truncated short =
    let mantissa : ℕ = rounded_rshift dv.sign dv.mantissa truncated in
    let high : ℕ = 18 - truncated in
    let e : sub32 18 (truncated % 2 ^ 32) ≡ high = omega arith in
    let l = lowest-IsLowest mantissa high (omega arith) in
    let r : ℕ = lowest high mantissa 0 high in
    rw e (from_lowest mantissa high r truncated refl short l)

-- One less than the count, and one more, is the count.
around_zero : (r : ℕ) → r ≤ 19 → add32 (sub32 r 1) 1 ≡ r
around_zero r h = omega arith

-- At most the 18 digits are zeroes, and none if the last digit that is looked at is not.
pub after_dot_bounds :
    (dv : Decimal18)
    → (count_trailing_zeroes_after_dot dv ≤ 18)
      × (rounded_divide dv.sign dv.mantissa 10 % 10 ≢ 0 → count_trailing_zeroes_after_dot dv ≤ 1)
unfolding count_trailing_zeroes_after_dot
after_dot_bounds dv = elim (Bool-cases (ltb 17 (digits_in_front dv.exponent))) [
  | inl far ↦ rw far (omega arith, λ h. omega arith)
  | inr near ↦
      let mantissa : ℕ = rounded_divide dv.sign dv.mantissa 10 in
      let high : ℕ = 17 - digits_in_front dv.exponent + 1 in
      let l = lowest-IsLowest mantissa high (omega arith) in
      let e = around_zero (lowest high mantissa 0 high) (omega (arith, l.at_most)) in
      rw (near, e)
        (
          omega (arith, l.at_most),
          λ h. elim (dec_le (lowest high mantissa 0 high) 1) [
            | yes le ↦ le
            | no gt ↦ absurd (h (l.zeroes 1 (omega arith)))
          ],
        )
]
