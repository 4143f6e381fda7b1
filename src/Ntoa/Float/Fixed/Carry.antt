-- ===== src/Ntoa/Float/Fixed/Carry.antt =====
-- The carry of rounding in `ftoa_base10_f_normal` of reckless/src/ntoa.cpp: with the room that it
-- makes, all the digits of the rounded mantissa have a place.
use native.Mathlib.Nat.{pow-suc, one-le-pow, div-lt_iff_lt-mul, div-eq_of_lt, le-div_iff_mul-le}
use reckless.Prelude.{
  ℕ, zero, suc, ◌+◌, ◌*◌, ◌/◌, ◌≤◌, ◌<◌, ◌^◌, ◌≡◌, refl, arith, true, false, ap, ◌∙◌, inl, inr, ◌⊎◌,
  Bool-cases, pow-add, leb, leb→le, ◌==◌, ==_iff, ◌≢◌, if◌then◌else◌,
}
use reckless.Ntoa.Significand.{power}
use reckless.Ntoa.Significand.Round.{power-eq-pow}
use reckless.Ntoa.Itoa.Laws.{CountsDecimal}
use reckless.Ntoa.Float.{Places, make_room}
use reckless.Ntoa.Float.Rounding.{tenth}
use reckless.Ntoa.Float.Fixed.Shares.{IsShared}

-- The places before it is known whether rounding carries.
pub record IsDraft (precision n : ℕ) (p : Places) (q suffix : ℕ) : Type 0 where
  pub sum : p.zeroes_after_dot + p.digits_after_dot + suffix ≡ precision
  pub most : p.digits_before_dot + p.digits_after_dot ≤ 18
  pub at_most : q ≤ 10 ^ (p.digits_before_dot + p.digits_after_dot)
  pub kind :
      ((p.digits_before_dot ≡ 18)
        × (p.digits_after_dot ≡ 0)
        × (suffix ≡ 0)
        × (10 ^ 17 ≤ q)
        × (q < 10 ^ 18)
        × (n ≡ q * 10 ^ p.zeroes_before_dot * 10 ^ precision))
      ⊎ ((0 < p.digits_before_dot)
          × (p.zeroes_before_dot ≡ 0)
          × (p.zeroes_after_dot ≡ 0)
          × (10 ^ (p.digits_before_dot + p.digits_after_dot) ≤ 10 * q)
          × (n ≡ q * 10 ^ suffix))
      ⊎ ((p.digits_before_dot ≡ 0) × (p.zeroes_before_dot ≡ 1) × (n ≡ q * 10 ^ suffix))

-- `if(carry)` with its test.
abbrev pub settle : Places → ℕ → Places
settle p q = if leb (power (p.digits_before_dot + p.digits_after_dot)) q then make_room p else p

-- A number of `db + da` digits has `db` of them in front of the last `da`.
front-HasDigits :
    (db da q : ℕ)
    → 0 < db
    → q < 10 ^ (db + da)
    → 10 ^ (db + da) ≤ 10 * q
    → CountsDecimal db (q / 10 ^ da)
front-HasDigits zero da q h below above = absurd (omega arith)
front-HasDigits (suc j) da q h below above =
    let positive : 0 < 10 ^ da = one-le-pow da 10 (omega arith) in
    let e : 10 ^ (suc j + da) ≡ 10 ^ j * 10 * 10 ^ da =
      pow-add 10 (suc j) da ∙ ap (λ t. t * 10 ^ da) (pow-suc 10 j) in
    let low : 10 ^ j ≤ q / 10 ^ da =
      (le-div_iff_mul-le positive).1 (omega (arith, e, tenth (10 ^ j) (10 ^ da))) in
    let high : q / 10 ^ da < 10 ^ suc j =
      (div-lt_iff_lt-mul positive).1 (omega (arith, pow-add 10 (suc j) da)) in
    let some = one-le-pow j 10 (omega arith) in
    inl
      (record { below = high; above = omega (arith, low, pow-suc 10 j) }, omega (arith, low, some))

above_test : (a b : ℕ) → leb a b ≡ false → b < a
above_test a b h = ground arith

-- After a carry there is one digit more, the first of which is 1.
one_more : (d e q : ℕ) → q ≡ 10 ^ d → e ≡ suc d → (q < 10 ^ e) × (10 ^ e ≤ 10 * q)
one_more d e q h h' =
    let p = one-le-pow d 10 (omega arith) in
    rw h' (omega (arith, pow-suc 10 d, h, p), omega (arith, pow-suc 10 d, h, p))

module _ (precision n : ℕ) (p : Places) (q suffix : ℕ) (d : IsDraft precision n p q suffix) where
  kept : q < 10 ^ (p.digits_before_dot + p.digits_after_dot) → IsShared precision n p q suffix
  kept h = elim d.kind [
    | inl (e18, none, no_suffix, low, high, e) ↦ record {
      sum = d.sum;
      whole = front-HasDigits p.digits_before_dot p.digits_after_dot q (omega arith) h (
          let e' : p.digits_before_dot + p.digits_after_dot ≡ 18 = omega arith in
          rw e' (omega arith));
      kind = inl (omega arith, none, no_suffix, e);
    }
    | inr (inl (some_digits, no_zeroes, none, low, e)) ↦ record {
      sum = d.sum;
      whole = front-HasDigits p.digits_before_dot p.digits_after_dot q some_digits h low;
      kind = inr (inl (some_digits, no_zeroes, none, e));
    }
    | inr (inr (none, one_zero, e)) ↦
        let h' = rw none at h in
        let few : q < 10 ^ p.digits_after_dot =
          let e' : 0 + p.digits_after_dot ≡ p.digits_after_dot = omega arith in rw (← e') h' in
        record {
          sum = d.sum;
          whole = inr (none, div-eq_of_lt few);
          kind = inr (inr (none, one_zero, few, e));
        }
  ]

  -- Where all 18 digits are in front of the dot, nothing is rounded.
  carry_kind :
      q ≡ 10 ^ (p.digits_before_dot + p.digits_after_dot)
      → (n ≡ q * 10 ^ suffix)
        × ((p.zeroes_after_dot ≡ 0) ⊎ ((p.digits_before_dot ≡ 0) × (p.zeroes_before_dot ≡ 1)))
  carry_kind c = elim d.kind [
    | inl (e18, none, no_suffix, low, high, e) ↦
        let e' : p.digits_before_dot + p.digits_after_dot ≡ 18 = omega arith in
        let c' = rw e' at c in absurd (omega arith)
    | inr (inl (some_digits, no_zeroes, none, low, e)) ↦ (e, inl none)
    | inr (inr (none, one_zero, e)) ↦ (e, inr (none, one_zero))
  ]

  carried_after :
      p.zeroes_after_dot ≢ 0
      → q ≡ 10 ^ (p.digits_before_dot + p.digits_after_dot)
      → IsShared precision n (make_room p) q suffix
  unfolding make_room
  carried_after nz c =
      let t : (p.zeroes_after_dot == 0) ≡ false = ground arith in
      let (e, k) = carry_kind c in
      elim k [
        | inl ez ↦ absurd (nz ez)
        | inr (none, one_zero) ↦
            let e0 : p.digits_before_dot + p.digits_after_dot ≡ p.digits_after_dot = omega arith in
            let (few, unused) =
              one_more (p.digits_before_dot + p.digits_after_dot) (p.digits_after_dot + 1) q c
                (omega arith) in
            simp t (record {
              sum = omega (arith, d.sum);
              whole = inr (none, div-eq_of_lt few);
              kind = inr (inr (none, one_zero, few, e));
            })
      ]

  carried_before :
      p.zeroes_after_dot ≡ 0
      → q ≡ 10 ^ (p.digits_before_dot + p.digits_after_dot)
      → IsShared precision n (make_room p) q suffix
  unfolding make_room
  carried_before ez c =
      let t : (p.zeroes_after_dot == 0) ≡ true = ground arith in
      let (e, k) = carry_kind c in
      let (few, many) =
        one_more (p.digits_before_dot + p.digits_after_dot)
          (p.digits_before_dot + 1 + p.digits_after_dot) q c (omega arith) in
      simp t (record {
        sum = d.sum;
        whole =
            front-HasDigits (p.digits_before_dot + 1) p.digits_after_dot q (omega arith) few many;
        kind = inr (inl (omega arith, refl, ez, e));
      })

  -- With the room for a carry, every digit has its place.
  pub settle-IsShared : IsShared precision n (settle p q) q suffix
  settle-IsShared =
      let e = power-eq-pow (p.digits_before_dot + p.digits_after_dot) (omega (arith, d.most)) in
      elim (Bool-cases (leb (power (p.digits_before_dot + p.digits_after_dot)) q)) [
        | inr below ↦ rw below (kept (omega (arith, e, above_test _ _ below)))
        | inl above ↦
            let c : q ≡ 10 ^ (p.digits_before_dot + p.digits_after_dot) =
              omega (arith, d.at_most, leb→le _ _ above, e) in
            rw above (elim (Bool-cases (p.zeroes_after_dot == 0)) [
              | inl z ↦ carried_before ((==_iff _ _).0 z) c
              | inr nz ↦ carried_after (ground arith) c
            ])
      ]
