-- ===== src/Ntoa/Log.antt =====
-- reckless/src/ntoa.cpp: the logarithms by which the number of digits is found.
pub mod Bounds
use Prim.Native.Nat.{bit_or}
use reckless.Prelude.{ℕ, ◌/◌, ◌^◌, ltb, if◌then◌else◌}

-- The two variables of `log2`: the bits found so far, and what is left of the value.
pub record Search : Type 0 where
  pub r : ℕ
  pub v : ℕ

-- One line of `log2`: `shift = (v > threshold) << k; v >>= shift; r |= shift;`.
pub narrow : ℕ → ℕ → Search → Search
narrow threshold k s =
    let shift : ℕ = if ltb threshold s.v then 2 ^ k else 0 in
    record { r = bit_or s.r shift; v = s.v / 2 ^ shift }

-- The last line of `log2`: `r |= (v >> 1)`.
pub last_bit : Search → ℕ
last_bit s = bit_or s.r (s.v / 2)

-- `log2` of a 4-byte integer. Its first line assigns `r` where the others write `r |= shift`.
pub log2_u32 : ℕ → ℕ
log2_u32 v =
    last_bit
      (narrow 0x3 1 (narrow 0xF 2 (narrow 0xFF 3 (narrow 0xFFFF 4 (record { r = 0; v = v })))))

-- `log2` of an 8-byte integer.
pub log2_u64 : ℕ → ℕ
log2_u64 v = last_bit (
    narrow 0x3 1 (
      narrow 0xF 2
        (narrow 0xFF 3 (narrow 0xFFFF 4 (narrow 0xFFFFFFFF 5 (record { r = 0; v = v }))))))

-- `log16`, over the `log2` of the operand's width.
pub log16_u32 : ℕ → ℕ
log16_u32 v = log2_u32 v / 4

pub log16_u64 : ℕ → ℕ
log16_u64 v = log2_u64 v / 4

-- `log10` of a 4-byte integer: a binary search on the number of digits.
pub log10_u32 : ℕ → ℕ
log10_u32 x =
    if ltb x 1000
    then (if ltb x 10 then 0 else if ltb x 100 then 1 else 2)
    else if ltb x 1000000
    then (if ltb x 10000 then 3 else if ltb x 100000 then 4 else 5)
    else if ltb x 100000000
    then (if ltb x 10000000 then 6 else 7)
    else if ltb x 1000000000
    then 8
    else 9

-- `log10` of an 8-byte integer.
pub log10_u64 : ℕ → ℕ
log10_u64 x =
    if ltb x 1000
    then (if ltb x 10 then 0 else if ltb x 100 then 1 else 2)
    else if ltb x 100000000000
    then (if ltb x 10000000
        then (if ltb x 100000
            then (if ltb x 10000 then 3 else 4)
            else if ltb x 1000000
            then 5
            else 6)
        else if ltb x 1000000000
        then (if ltb x 100000000 then 7 else 8)
        else if ltb x 10000000000
        then 9
        else 10)
    else if ltb x 1000000000000000
    then (if ltb x 10000000000000
        then (if ltb x 1000000000000 then 11 else 12)
        else if ltb x 100000000000000
        then 13
        else 14)
    else if ltb x 100000000000000000
    then (if ltb x 10000000000000000 then 15 else 16)
    else if ltb x 1000000000000000000
    then 17
    else if ltb x 10000000000000000000
    then 18
    else 19
