-- ===== src/Ntoa/Itoa/Laws.antt =====
-- `itoa_base10` and `itoa_base16` of reckless/src/ntoa.cpp write what printf prescribes.
use native.Mathlib.Nat.{pow-suc, one-le-pow, pow-le-pow_right}
use native.Mathlib.Decide.{dec_lt}
use reckless.Prelude.{
  ℕ, zero, suc, ◌+◌, ◌*◌, ◌≤◌, ◌<◌, ◌^◌, ◌≡◌, refl, [], arith, Bool, true, false, add32, ◌==◌,
  if◌then◌else◌, length, ap, ◌∙◌, sym, ◌⊎◌, inl, inr,
}
use reckless.Prelude.Int.{ℤ, pos, negsuc, nat_abs}
use reckless.Output.{Buffer}
use reckless.Output.Appends.{Appends, emit-Appends}
use reckless.Ntoa.Log.Bounds.{
  log10_u32_bounds, log10_u64_bounds, log16_u32_bounds, log16_u64_bounds,
}
use reckless.Ntoa.Digits.Base10
use reckless.Ntoa.Digits.Base10.{decimal, length-decimal}
use reckless.Ntoa.Digits.Base16
use reckless.Ntoa.Digits.Base16.{hexadecimal, length-hexadecimal}
use reckless.Ntoa.Itoa.{
  ConversionSpecification, Width, w32, w64, log10, log16, plan, plan_base10, plan_base16,
  write_base10, write_base16, Integer, int, unsigned_int, long, unsigned_long, long_long,
  unsigned_long_long, itoa_generic_base10, itoa_signed_base10, itoa_base10, itoa_generic_base16,
  itoa_signed_base16, itoa_base16,
}
use reckless.Ntoa.Itoa.Text.{prefix_text, length-field_text, write_base10_lem, write_base16_lem}
use reckless.Ntoa.Itoa.Spec.{number_text, IsPrintable, plan-IsExact, field_text-plan}

abbrev pub bits : Width → ℕ
bits w32 = 32
bits w64 = 64

-- A power bounds its exponent.
exponent_lt : (b m n : ℕ) → 0 < b → b ^ m < b ^ n → m < n
exponent_lt b m n positive h = elim (dec_lt m n) [
  | yes lt ↦ lt
  | no ge ↦ absurd (omega (arith, pow-le-pow_right positive {i = n} {j = m} (omega arith)))
]

log10_bounds :
    (w : Width) (x : ℕ)
    → 0 < x
    → x < 2 ^ bits w
    → (10 ^ log10 w x ≤ x) × (x < 10 ^ (log10 w x + 1)) × (x < 10 ^ 20)
unfolding log10
log10_bounds w32 x p h = let (l, u) = log10_u32_bounds x p h in (l, u, omega arith)
log10_bounds w64 x p h = let (l, u) = log10_u64_bounds x p h in (l, u, omega arith)

log16_bounds :
    (w : Width) (x : ℕ)
    → 0 < x
    → x < 2 ^ bits w
    → (16 ^ log16 w x ≤ x) × (x < 16 ^ (log16 w x + 1)) × (x < 16 ^ 16)
unfolding log16
log16_bounds w32 x p h = let (l, u) = log16_u32_bounds x p h in (l, u, omega arith)
log16_bounds w64 x p h = let (l, u) = log16_u64_bounds x p h in (l, u, omega arith)

-- `k` decimal digits of `value`, with no leading zero; zero has none.
abbrev pub CountsDecimal : ℕ → ℕ → Type 0
CountsDecimal k value = (Base10.HasDigits k value × (0 < value)) ⊎ ((k ≡ 0) × (value ≡ 0))

-- A number between two neighbouring powers has one digit more than the lower exponent.
count_of_log :
    (b l k v : ℕ) → 1 < b → b ^ l ≤ v → v < b ^ (l + 1) → v < b ^ k → b ^ k ≤ b * v → k ≡ l + 1
count_of_log b l k v big low high below above =
    let above' = exponent_lt b k (suc (l + 1)) (omega arith) (rw pow-suc (grind arith)) in
    omega (arith, exponent_lt b l k (omega arith) (omega arith))

-- The number of digits that the code finds is the number of digits.
digits_base10 :
    (w : Width) (value k : ℕ)
    → value < 2 ^ bits w
    → CountsDecimal k value
    → ((if value == 0 then 0 else add32 (log10 w value) 1) ≡ k) × (k ≤ 20)
digits_base10 w value k h (inr (e, z)) = rw (z, e) (refl, omega arith)
digits_base10 w value k h (inl (d, positive)) =
    let (low, high, top) = log10_bounds w value positive h in
    let e = count_of_log 10 (log10 w value) k value (omega arith) low high d.below d.above in
    let short = exponent_lt 10 (log10 w value) 20 (omega arith) (omega arith) in
    (ground arith, omega arith)

above_base16 : (k v : ℕ) → 0 < v → Base16.HasDigits k v → 16 ^ k ≤ 16 * v
above_base16 zero v p d = omega arith
above_base16 (suc k) v p d = let a = rw pow-suc at d.above in rw pow-suc (omega arith)

digits_base16 :
    (w : Width) (value k : ℕ)
    → value < 2 ^ bits w
    → Base16.HasDigits k value
    → ((if value == 0 then 0 else add32 (log16 w value) 1) ≡ k) × (k ≤ 20)
digits_base16 w zero zero h d = (refl, omega arith)
digits_base16 w zero (suc k) h d =
    let a = rw pow-suc at d.above in absurd (grind (arith, one-le-pow k 16))
digits_base16 w (suc v) k h d =
    let positive : 0 < suc v = omega arith in
    let (low, high, top) = log16_bounds w (suc v) positive h in
    let e =
      count_of_log 16 (log16 w (suc v)) k (suc v) (omega arith) low high d.below
        (above_base16 k (suc v) positive d) in
    let short = exponent_lt 16 (log16 w (suc v)) 16 (omega arith) (omega arith) in
    (ground arith, omega arith)

-- How a value is passed on to the generic conversions.
abbrev pub width : Integer → Width
width (int v) = w32
width (unsigned_int v) = w32
width (long v) = w64
width (unsigned_long v) = w64
width (long_long v) = w64
width (unsigned_long_long v) = w64

abbrev pub is_negative : ℤ → Bool
is_negative (pos n) = false
is_negative (negsuc n) = true

-- The integer that is printed.
abbrev pub value : Integer → ℤ
value (int v) = v
value (unsigned_int v) = pos v
value (long v) = v
value (unsigned_long v) = pos v
value (long_long v) = v
value (unsigned_long_long v) = pos v

length-digits : (k n : ℕ) → length (decimal k n []) ≡ k
length-digits k n = length-decimal k n [] ∙ omega arith

module _ (b : Buffer) (cs : ConversionSpecification) (k : ℕ) (s : b.State) where
  itoa_generic_base10-Appends :
      (w : Width) (negative : Bool) (v : ℕ)
      → v < 2 ^ bits w
      → IsPrintable 0 cs
      → CountsDecimal k v
      → Appends b
          (number_text cs negative [] (decimal k v []))
          s
          (itoa_generic_base10 b w negative v cs s)
  unfolding itoa_generic_base10 plan_base10 plan
  itoa_generic_base10-Appends w negative v h p d =
      let (e, short) = digits_base10 w v k h d in
      let x = plan-IsExact negative 0 k cs (inl refl) short p in
      rw e (
        emit-Appends b (plan negative 0 k cs).size (write_base10 (plan negative 0 k cs) v cs) _ s
          (λ mem len.
            write_base10_lem (plan negative 0 k cs) v cs mem x refl d len
            ∙ field_text-plan negative 0 k cs (decimal k v []) (inl refl) short p
                (length-digits k v))
          (ap length (
              sym (
                field_text-plan negative 0 k cs (decimal k v []) (inl refl) short p
                  (length-digits k v)))
            ∙ length-field_text (plan negative 0 k cs) cs _ x (length-digits k v)))

length-hex_digits : (u : Bool) (k n : ℕ) → length (hexadecimal u k n []) ≡ k
length-hex_digits u k n = length-hexadecimal u k n [] ∙ omega arith

-- `0x` stands before a value that is not zero, in the alternative form.
abbrev pub prefix_of : ConversionSpecification → ℕ → ℕ
prefix_of cs v = if v == 0 then 0 else if cs.alternative_form then 2 else 0

prefix_of-cases :
    (cs : ConversionSpecification) (v : ℕ) → (prefix_of cs v ≡ 0) ⊎ (prefix_of cs v ≡ 2)
prefix_of-cases cs v = ground arith

module _ (b : Buffer) (cs : ConversionSpecification) (k : ℕ) (s : b.State) where
  itoa_generic_base16-Appends :
      (w : Width) (negative : Bool) (v : ℕ)
      → v < 2 ^ bits w
      → IsPrintable (prefix_of cs v) cs
      → Base16.HasDigits k v
      → Appends b
          (number_text cs negative
            (prefix_text (prefix_of cs v) cs.uppercase)
            (hexadecimal cs.uppercase k v []))
          s
          (itoa_generic_base16 b w negative v cs s)
  unfolding itoa_generic_base16 plan_base16 plan
  itoa_generic_base16-Appends w negative v h p d =
      let (e, short) = digits_base16 w v k h d in
      let two = prefix_of-cases cs v in
      let l = plan negative (prefix_of cs v) k cs in
      let x = plan-IsExact negative (prefix_of cs v) k cs two short p in
      let text =
        field_text-plan negative (prefix_of cs v) k cs (hexadecimal cs.uppercase k v []) two short p
          (length-hex_digits cs.uppercase k v) in
      rw e (
        emit-Appends b l.size (write_base16 l v cs) _ s
          (λ mem len. write_base16_lem l v cs mem x d len ∙ text)
          (ap length (sym text) ∙ length-field_text l cs _ x (length-hex_digits cs.uppercase k v)))

abbrev pub InRange : Width → ℤ → Type 0
InRange w v = nat_abs v < 2 ^ bits w

module _ (b : Buffer) (cs : ConversionSpecification) (k : ℕ) (s : b.State) where
  itoa_signed_base10-Appends :
      (w : Width) (v : ℤ)
      → InRange w v
      → IsPrintable 0 cs
      → CountsDecimal k (nat_abs v)
      → Appends b
          (number_text cs (is_negative v) [] (decimal k (nat_abs v) []))
          s
          (itoa_signed_base10 b w v cs s)
  unfolding itoa_signed_base10
  itoa_signed_base10-Appends w (pos n) h p d = itoa_generic_base10-Appends b cs k s w false n h p d
  itoa_signed_base10-Appends w (negsuc n) h p d =
      let e : n + 1 ≡ suc n = omega arith in
      rw e (itoa_generic_base10-Appends b cs k s w true (suc n) h p d)

  -- Every overload of `itoa_base10`, for a value that the type holds, with its number of digits,
  -- and a specification whose width and precision fit into `unsigned`: the call appends the text
  -- that `number_text` prescribes for the sign and the decimal digits of the value, or, if the
  -- buffer fails, a first part of it.
  pub itoa_base10-Appends :
      (v : Integer)
      → InRange (width v) (value v)
      → IsPrintable 0 cs
      → CountsDecimal k (nat_abs (value v))
      → Appends b
          (number_text cs (is_negative (value v)) [] (decimal k (nat_abs (value v)) []))
          s
          (itoa_base10 b v cs s)
  unfolding itoa_base10
  itoa_base10-Appends (int v) h p d = itoa_signed_base10-Appends w32 v h p d
  itoa_base10-Appends (unsigned_int v) h p d =
      itoa_generic_base10-Appends b cs k s w32 false v h p d
  itoa_base10-Appends (long v) h p d = itoa_signed_base10-Appends w64 v h p d
  itoa_base10-Appends (unsigned_long v) h p d =
      itoa_generic_base10-Appends b cs k s w64 false v h p d
  itoa_base10-Appends (long_long v) h p d = itoa_signed_base10-Appends w64 v h p d
  itoa_base10-Appends (unsigned_long_long v) h p d =
      itoa_generic_base10-Appends b cs k s w64 false v h p d

  itoa_signed_base16-Appends :
      (w : Width) (v : ℤ)
      → InRange w v
      → IsPrintable (prefix_of cs (nat_abs v)) cs
      → Base16.HasDigits k (nat_abs v)
      → Appends b
          (number_text cs
            (is_negative v)
            (prefix_text (prefix_of cs (nat_abs v)) cs.uppercase)
            (hexadecimal cs.uppercase k (nat_abs v) []))
          s
          (itoa_signed_base16 b w v cs s)
  unfolding itoa_signed_base16
  itoa_signed_base16-Appends w (pos n) h p d = itoa_generic_base16-Appends b cs k s w false n h p d
  itoa_signed_base16-Appends w (negsuc n) h p d =
      let e : n + 1 ≡ suc n = omega arith in
      rw e (itoa_generic_base16-Appends b cs k s w true (suc n) h p d)

  -- Every overload of `itoa_base16`, for a value that the type holds, with its number of digits,
  -- and a specification with a width below 2^32, and a precision that is left open or, with one for
  -- the sign and two for a prefix, is below 2^32: the call appends the text
  -- that `number_text` prescribes for the sign, the prefix `0x` or `0X` of a value that is not zero
  -- in the alternative form, and the hexadecimal digits of the value, or, if the buffer fails, a
  -- first part of it.
  pub itoa_base16-Appends :
      (v : Integer)
      → InRange (width v) (value v)
      → IsPrintable (prefix_of cs (nat_abs (value v))) cs
      → Base16.HasDigits k (nat_abs (value v))
      → Appends b
          (number_text cs
            (is_negative (value v))
            (prefix_text (prefix_of cs (nat_abs (value v))) cs.uppercase)
            (hexadecimal cs.uppercase k (nat_abs (value v)) []))
          s
          (itoa_base16 b v cs s)
  unfolding itoa_base16
  itoa_base16-Appends (int v) h p d = itoa_signed_base16-Appends w32 v h p d
  itoa_base16-Appends (unsigned_int v) h p d =
      itoa_generic_base16-Appends b cs k s w32 false v h p d
  itoa_base16-Appends (long v) h p d = itoa_signed_base16-Appends w64 v h p d
  itoa_base16-Appends (unsigned_long v) h p d =
      itoa_generic_base16-Appends b cs k s w64 false v h p d
  itoa_base16-Appends (long_long v) h p d = itoa_signed_base16-Appends w64 v h p d
  itoa_base16-Appends (unsigned_long_long v) h p d =
      itoa_generic_base16-Appends b cs k s w64 false v h p d
