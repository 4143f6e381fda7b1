-- ===== src/Ntoa/Float/Fixed/Shares.antt =====
-- How `ftoa_base10_f_normal` of reckless/src/ntoa.cpp shares out the digits: the characters on
-- both sides of the dot are those of one number.
use native.Mathlib.Nat.{
  one-le-pow, mul-le-mul_right, mul-div_cancel, div-div-eq-div-mul, div-eq_of_lt, zero-div,
}
use reckless.Prelude.{
  ℕ, suc, ◌+◌, ◌-◌, ◌*◌, ◌/◌, ◌≤◌, ◌<◌, ◌^◌, ◌≡◌, refl, List, [], ◌++◌, arith, replicate, ap, ◌∙◌,
  sym, inl, inr, ◌⊎◌, length, pow-add,
}
use reckless.Ntoa.Digits.Base10.{decimal, decimal-append, HasDigits, length-decimal}
use reckless.Ntoa.Digits.Zeroes.{decimal-zeroes, decimal_leading}
use reckless.Ntoa.Itoa.Spec.{pad_left}
use reckless.Ntoa.Itoa.Laws.{CountsDecimal}
use reckless.Ntoa.Float.{Places}

-- The digits of `q` stand at the places of `p`, with `suffix` zeroes behind them, and the whole is
-- `n` in units of the last place.
pub record IsShared (precision n : ℕ) (p : Places) (q suffix : ℕ) : Type 0 where
  pub sum : p.zeroes_after_dot + p.digits_after_dot + suffix ≡ precision
  pub whole : CountsDecimal p.digits_before_dot (q / 10 ^ p.digits_after_dot)
  pub kind :
      ((0 < p.digits_before_dot)
        × (p.digits_after_dot ≡ 0)
        × (suffix ≡ 0)
        × (n ≡ q * 10 ^ p.zeroes_before_dot * 10 ^ precision))
      ⊎ ((0 < p.digits_before_dot)
          × (p.zeroes_before_dot ≡ 0)
          × (p.zeroes_after_dot ≡ 0)
          × (n ≡ q * 10 ^ suffix))
      ⊎ ((p.digits_before_dot ≡ 0)
          × (p.zeroes_before_dot ≡ 1)
          × (q < 10 ^ p.digits_after_dot)
          × (n ≡ q * 10 ^ suffix))

shared_fraction :
    (precision za da q s : ℕ)
    → za + da + s ≡ precision
    → (za ≡ 0) ⊎ (q < 10 ^ da)
    → replicate za b'0' ++ decimal da q (replicate s b'0' ++ []) ≡ decimal precision (q * 10 ^ s) []
shared_fraction precision za da q s sum (inl none) =
    let e : precision ≡ s + da = omega (arith, none) in
    rw (none, e) (sym (decimal-zeroes s da q []))
shared_fraction precision za da q s sum (inr small) =
    let e : precision ≡ s + (da + za) = omega arith in
    rw e (sym (decimal_leading da za q _ small) ∙ sym (decimal-zeroes s (da + za) q []))

front_fraction :
    (precision za da q q' s : ℕ)
    → za + da + s ≡ precision
    → da ≡ 0
    → s ≡ 0
    → replicate za b'0' ++ decimal da q (replicate s b'0' ++ [])
      ≡ decimal precision (q' * 10 ^ precision) []
unfolding decimal
front_fraction precision za da q q' s sum none no_suffix =
    let e : za ≡ precision = omega (arith, none, no_suffix) in
    let z = decimal-zeroes precision 0 q' [] in
    let e' : precision + 0 ≡ precision = omega arith in
    let z' = rw e' at z in rw (none, no_suffix, e) (sym z')

-- The characters behind the dot are the last digits of the number.
pub fraction_digits :
    {precision n : ℕ} {p : Places} {q suffix : ℕ}
    → IsShared precision n p q suffix
    → replicate p.zeroes_after_dot b'0'
        ++ decimal p.digits_after_dot q (replicate suffix b'0' ++ [])
      ≡ decimal precision n []
fraction_digits {precision} {n} {p} {q} {suffix} h = elim h.kind [
  | inl (some_digits, none, no_suffix, e) ↦
      front_fraction precision _ _ q (q * 10 ^ p.zeroes_before_dot) suffix h.sum none no_suffix
      ∙ ap (λ k. decimal precision k []) (sym e)
  | inr (inl (some_digits, no_zeroes, none, e)) ↦
      shared_fraction precision p.zeroes_after_dot p.digits_after_dot q suffix h.sum (inl none)
      ∙ ap (λ k. decimal precision k []) (sym e)
  | inr (inr (none, one_zero, small, e)) ↦
      shared_fraction precision p.zeroes_after_dot p.digits_after_dot q suffix h.sum (inr small)
      ∙ ap (λ k. decimal precision k []) (sym e)
]

-- Digits that are there are not filled up.
pad_one :
    (k v : ℕ) (rest : List ℕ) → 0 < k → decimal k v rest ≡ pad_left 1 b'0' (decimal k v []) ++ rest
pad_one k v rest h =
    let e : 1 - length (decimal k v []) ≡ 0 = omega (arith, length-decimal k v []) in
    rw e (sym (decimal-append k v [] rest))

-- A multiple of a power of ten has that many digits more.
scale-HasDigits :
    (k v p x : ℕ) → 0 < p → x ≡ p * 10 ^ k → HasDigits k v → (v * p < x) × (x ≤ 10 * (v * p))
scale-HasDigits k v p x h e d =
    let below : suc v * p ≤ 10 ^ k * p = mul-le-mul_right p d.below in
    let above : 10 ^ k * p ≤ 10 * v * p = mul-le-mul_right p d.above in
    (grind (arith, below), grind (arith, above))

counts-zeroes : (z k v : ℕ) → 0 < k → CountsDecimal k v → CountsDecimal (z + k) (v * 10 ^ z)
counts-zeroes z k v h (inr (e, e')) = absurd (omega (arith, e))
counts-zeroes z k v h (inl (d, positive)) =
    let p = one-le-pow z 10 (omega arith) in
    let (below, above) = scale-HasDigits k v (10 ^ z) _ p (pow-add 10 z k) d in
    let m : 1 * 10 ^ z ≤ v * 10 ^ z = mul-le-mul_right (10 ^ z) positive in
    inl (record { below = below; above = above }, omega arith)

-- The number in front of the dot, without leading zeroes, or a zero.
abbrev pub IsWhole : ℕ → (List ℕ → List ℕ) → ℕ → Type 0
IsWhole v write k =
    CountsDecimal k v × ((rest : List ℕ) → write rest ≡ pad_left 1 b'0' (decimal k v []) ++ rest)

abbrev whole_text : Places → ℕ → List ℕ → List ℕ
whole_text p q rest =
    decimal p.digits_before_dot (q / 10 ^ p.digits_after_dot)
      (replicate p.zeroes_before_dot b'0' ++ rest)

front_above :
    (precision q q' db zb da : ℕ)
    → 0 < db
    → CountsDecimal db (q / 10 ^ da)
    → q / 10 ^ da ≡ q'
    → IsWhole
        (q' * 10 ^ zb * 10 ^ precision / 10 ^ precision)
        (λ rest. decimal db (q / 10 ^ da) (replicate zb b'0' ++ rest))
        (zb + db)
front_above precision q q' db zb da h c e =
    let d =
      mul-div_cancel (q' * 10 ^ zb) {n = 10 ^ precision} (one-le-pow precision 10 (omega arith)) in
    rw (d, ← e)
      (
        counts-zeroes zb db (q / 10 ^ da) h c,
        λ rest.
            sym (decimal-zeroes zb db (q / 10 ^ da) rest)
            ∙ pad_one (zb + db) (q / 10 ^ da * 10 ^ zb) rest (omega arith),
      )

unscale : (q s k precision : ℕ) → precision ≡ s + k → q * 10 ^ s / 10 ^ precision ≡ q / 10 ^ k
unscale q s k precision e =
    ap (λ t. q * 10 ^ s / t) (ap (λ t. 10 ^ t) e ∙ pow-add 10 s k)
    ∙ sym (div-div-eq-div-mul (q * 10 ^ s) (10 ^ s) (10 ^ k))
    ∙ ap (λ t. t / 10 ^ k) (mul-div_cancel q (one-le-pow s 10 (omega arith)))

fewer_digits : (q da za : ℕ) → q < 10 ^ da → q / 10 ^ (da + za) ≡ 0
fewer_digits q da za h =
    ap (λ t. q / t) (pow-add 10 da za)
    ∙ sym (div-div-eq-div-mul q (10 ^ da) (10 ^ za))
    ∙ ap (λ t. t / 10 ^ za) (div-eq_of_lt h)
    ∙ zero-div (10 ^ za)

-- The characters in front of the dot are the digits of the whole part of the number.
pub front_digits :
    {precision n : ℕ} {p : Places} {q suffix : ℕ}
    → IsShared precision n p q suffix
    → (k : ℕ) × IsWhole (n / 10 ^ precision) (whole_text p q) k
unfolding decimal
front_digits {precision} {n} {p} {q} {suffix} h = elim h.kind [
  | inl (some_digits, none, no_suffix, e) ↦
      let e' : q / 10 ^ p.digits_after_dot ≡ q = ap (λ t. q / 10 ^ t) none ∙ omega arith in
      (
        p.zeroes_before_dot + p.digits_before_dot,
        rw e (
            front_above precision q q _ p.zeroes_before_dot p.digits_after_dot some_digits h.whole
              e'),
      )
  | inr (inl (some_digits, no_zeroes, none, e)) ↦
      let u = unscale q suffix p.digits_after_dot precision (omega (arith, h.sum)) in
      (
        p.digits_before_dot,
        rw (e, u, no_zeroes) (h.whole, λ rest. pad_one p.digits_before_dot _ rest some_digits),
      )
  | inr (inr (none, one_zero, few, e)) ↦
      let u =
        unscale q suffix (p.digits_after_dot + p.zeroes_after_dot) precision
          (omega (arith, h.sum)) in
      let u' = fewer_digits q p.digits_after_dot p.zeroes_after_dot few in
      (0, rw (e, u, u', none, one_zero) (inr (refl, refl), λ rest. refl))
]
