-- ===== src/Ntoa/Log/Bounds.antt =====
-- The logarithms of reckless/src/ntoa.cpp are those of their bases, rounded down.
use Prim.Native.Nat.{bit_or}
use native.Mathlib.Nat.{
  pow-le-pow_right, mul_assoc, le_trans, mul-le-mul_left, div-add-mod, mod-lt, pow-suc,
}
use reckless.Prelude.{
  ℕ, zero, suc, ◌+◌, ◌*◌, ◌/◌, ◌%◌, ◌^◌, ◌≤◌, ◌<◌, ◌≡◌, refl, ◌⊎◌, inl, inr, Bool, true, not, ◌||◌,
  arith, ltb, ◌==◌, ==_iff, Bool-cases, each_below, each_below_lem, pow-add,
}
use reckless.Ntoa.Log.{
  Search, narrow, last_bit, log2_u32, log2_u64, log16_u32, log16_u64, log10_u32, log10_u64,
}

-- For every positive integer below 2^32 the result is its decimal logarithm, rounded down.
pub log10_u32_bounds :
    (x : ℕ) → 0 < x → x < 2 ^ 32 → (10 ^ log10_u32 x ≤ x) × (x < 10 ^ (log10_u32 x + 1))
unfolding log10_u32
log10_u32_bounds x p h = ground arith

-- For every positive integer below 2^64 the result is its decimal logarithm, rounded down.
pub log10_u64_bounds :
    (x : ℕ) → 0 < x → x < 2 ^ 64 → (10 ^ log10_u64 x ≤ x) × (x < 10 ^ (log10_u64 x + 1))
unfolding log10_u64
log10_u64_bounds x p h = ground arith

-- Where the bits found so far are a multiple of twice the next one, `|` is a sum.
abbrev or_table : ℕ → Bool
or_table s = each_below 64 (λ r. not (r % (2 * s) == 0) || (bit_or r s == r + s))

or_sum : (s r : ℕ) → or_table s ≡ true → r < 64 → r % (2 * s) ≡ 0 → bit_or r s ≡ r + s
or_sum s r t h m = ground (arith, each_below_lem 64 _ r h t)

or_zero : (r : ℕ) → r < 64 → bit_or r 0 ≡ r
unfolding each_below
or_zero r h = (==_iff _ r).0 (each_below_lem 64 (λ r. bit_or r 0 == r) r h refl)

-- What is left of `x` after `r` of its bits, in fewer than `width` bits.
record Window (x width : ℕ) (s : Search) : Type 0 where
  low : 2 ^ s.r * s.v ≤ x
  high : x < 2 ^ s.r * (s.v + 1)
  positive : 0 < s.v
  fits : s.v < 2 ^ width
  index : ℕ
  aligned : s.r ≡ index * width
  small : s.r + width ≤ 64

-- A quotient by `m` of a value between two multiples of `p`.
coarser :
    (p m v x : ℕ)
    → 0 < m
    → p * v ≤ x
    → x < p * (v + 1)
    → v < m * m
    → (p * m * (v / m) ≤ x) × (x < p * m * (v / m + 1)) × (v / m < m)
coarser p m v x pos low high fits = (
  rw mul_assoc (le_trans (mul-le-mul_left p (omega (arith, div-add-mod v m))) low),
  le_trans high (rw mul_assoc (mul-le-mul_left p (omega (arith, div-add-mod v m, mod-lt v pos)))),
  grind arith,
)

div_one : (n : ℕ) → n / 1 ≡ n
div_one n = omega arith

high_part : (v m : ℕ) → 0 < m → m ≤ v → 0 < v / m
high_part v m pos h = grind arith

narrow-Window :
    (x t k w : ℕ) (s : Search)
    → 0 < w
    → t + 1 ≡ 2 ^ w
    → 2 ^ k ≡ w
    → bit_or s.r w ≡ s.r + w
    → Window x (w + w) s
    → Window x w (narrow t k s)
unfolding narrow
narrow-Window x t k w s wide et ew e1 win = elim (Bool-cases (ltb t s.v)) [
  | inl more ↦
      rw (more, ew, e1)
        (let (low, high, fits) =
            coarser (2 ^ s.r) (2 ^ w) s.v x (omega arith) win.low win.high
              (rw pow-add at win.fits) in
          record {
            low = rw pow-add low;
            high = rw pow-add high;
            positive = high_part s.v (2 ^ w) (omega arith) (ground arith);
            fits = fits;
            index = 2 * win.index + 1;
            aligned = omega (arith, win.aligned);
            small = omega (arith, win.small);
          })
  | inr less ↦
      rw (less, or_zero s.r (omega (arith, win.small)))
        (record {
          low = rw div_one win.low;
          high = rw div_one win.high;
          positive = rw div_one win.positive;
          fits = rw div_one (ground arith);
          index = 2 * win.index;
          aligned = omega (arith, win.aligned);
          small = le_trans (omega arith) win.small;
        })
]

start-Window : (x w : ℕ) → w ≤ 64 → 0 < x → x < 2 ^ w → Window x w (record { r = 0; v = x })
start-Window x w fits pos h = record {
  low = omega arith;
  high = omega arith;
  positive = pos;
  fits = h;
  index = 0;
  aligned = omega arith;
  small = omega arith;
}

halves : (v : ℕ) → 0 < v → v < 4 → ((v / 2 ≡ 0) × (v ≡ 1)) ⊎ ((v / 2 ≡ 1) × (2 ≤ v))
halves v pos h = ground arith

-- The last line finds the logarithm.
last_bit-Window :
    (x : ℕ) (s : Search) → Window x 2 s → (2 ^ last_bit s ≤ x) × (x < 2 ^ (last_bit s + 1))
unfolding last_bit each_below
last_bit-Window x s win = elim (halves s.v win.positive win.fits) [
  | inl (e, one) ↦
      rw (e, or_zero s.r (omega (arith, win.small)), pow-add)
        (grind (arith, win.low), grind (arith, win.high))
  | inr (e, two) ↦
      rw (e, or_sum 1 s.r refl (omega (arith, win.small)) (omega (arith, win.aligned)), pow-add)
        (
          le_trans (mul-le-mul_left (2 ^ s.r) two) win.low,
          le_trans win.high (
              omega (
                arith,
                mul-le-mul_left {m = s.v + 1} {n = 4} (2 ^ s.r) (omega (arith, win.fits)),
                pow-add 2 (s.r + 1) 1,
                pow-add 2 s.r 1,
              )),
        )
]

-- The lines that both widths share.
last_lines :
    (x : ℕ) (s : Search)
    → Window x 32 s
    → (2 ^ last_bit (narrow 0x3 1 (narrow 0xF 2 (narrow 0xFF 3 (narrow 0xFFFF 4 s)))) ≤ x)
      × (x < 2 ^ (last_bit (narrow 0x3 1 (narrow 0xF 2 (narrow 0xFF 3 (narrow 0xFFFF 4 s)))) + 1))
unfolding each_below
last_lines x s w32 =
    let w16 =
      narrow-Window x 0xFFFF 4 16 s (omega arith) refl refl
        (or_sum 16 _ refl (omega (arith, w32.small)) (omega (arith, w32.aligned))) w32 in
    let w8 =
      narrow-Window x 0xFF 3 8 _ (omega arith) refl refl
        (or_sum 8 _ refl (omega (arith, w16.small)) (omega (arith, w16.aligned))) w16 in
    let w4 =
      narrow-Window x 0xF 2 4 _ (omega arith) refl refl
        (or_sum 4 _ refl (omega (arith, w8.small)) (omega (arith, w8.aligned))) w8 in
    let w2 =
      narrow-Window x 0x3 1 2 _ (omega arith) refl refl
        (or_sum 2 _ refl (omega (arith, w4.small)) (omega (arith, w4.aligned))) w4 in
    last_bit-Window x _ w2

-- For every positive integer below 2^32 the result is its binary logarithm, rounded down.
pub log2_u32_bounds :
    (x : ℕ) → 0 < x → x < 2 ^ 32 → (2 ^ log2_u32 x ≤ x) × (x < 2 ^ (log2_u32 x + 1))
unfolding log2_u32
log2_u32_bounds x p h = last_lines x _ (start-Window x 32 (omega arith) p h)

-- For every positive integer below 2^64 the result is its binary logarithm, rounded down.
pub log2_u64_bounds :
    (x : ℕ) → 0 < x → x < 2 ^ 64 → (2 ^ log2_u64 x ≤ x) × (x < 2 ^ (log2_u64 x + 1))
unfolding log2_u64 each_below
log2_u64_bounds x p h =
    let w64 = start-Window x 64 (omega arith) p h in
    last_lines x _ (narrow-Window x 0xFFFFFFFF 5 32 _ (omega arith) refl refl refl w64)

pow-sixteen : (m : ℕ) → 16 ^ m ≡ 2 ^ (4 * m)
pow-sixteen zero = refl
pow-sixteen (suc m) =
    let e : 4 * suc m ≡ 4 * m + 4 = omega arith in
    rw (pow-suc 16 m, pow-sixteen m, e, pow-add 2 (4 * m) 4)

from_log2 : (l x : ℕ) → 2 ^ l ≤ x → x < 2 ^ (l + 1) → (16 ^ (l / 4) ≤ x) × (x < 16 ^ (l / 4 + 1))
from_log2 l x low high = (
  le_trans (rw pow-sixteen (pow-le-pow_right (omega arith) (omega arith))) low,
  le_trans high (rw pow-sixteen (pow-le-pow_right (omega arith) (omega arith))),
)

-- For every positive integer below 2^64 the result is its hexadecimal logarithm, rounded down.
pub log16_u64_bounds :
    (x : ℕ) → 0 < x → x < 2 ^ 64 → (16 ^ log16_u64 x ≤ x) × (x < 16 ^ (log16_u64 x + 1))
unfolding log16_u64
log16_u64_bounds x p h =
    let (low, high) = log2_u64_bounds x p h in from_log2 (log2_u64 x) x low high

-- For every positive integer below 2^32 the result is its hexadecimal logarithm, rounded down.
pub log16_u32_bounds :
    (x : ℕ) → 0 < x → x < 2 ^ 32 → (16 ^ log16_u32 x ≤ x) × (x < 16 ^ (log16_u32 x + 1))
unfolding log16_u32
log16_u32_bounds x p h =
    let (low, high) = log2_u32_bounds x p h in from_log2 (log2_u32 x) x low high
