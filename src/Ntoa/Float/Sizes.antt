-- ===== src/Ntoa/Float/Sizes.antt =====
-- The sizes that the conversions of floating-point numbers in reckless/src/ntoa.cpp add up.
use reckless.Prelude.{
  ℕ, suc, ◌+◌, ◌-◌, ◌%◌, ◌≤◌, ◌<◌, ◌^◌, ◌≡◌, arith, Bool, not, ◌||◌, ◌==◌, if◌then◌else◌, max,
}
use reckless.Ntoa.Itoa.{one_if_set}

-- A size and the padding, which is of zeroes or of spaces.
pub sizes :
    (width content n : ℕ) (move : Bool)
    → width < 2 ^ 32
    → content ≡ n
    → n < 2 ^ 32
    → let padding = max width (content % 2 ^ 32) - content % 2 ^ 32 in
      (max width (content % 2 ^ 32) < 2 ^ 32)
      × (max width (content % 2 ^ 32)
          ≡ (if move then 0 else padding) + ((if move then padding else 0) + n))
      × ((if move then 0 else padding) ≡ (if move then 0 else width - n))
      × ((if move then padding else 0) ≡ (if move then width - n else 0))
sizes width content n move small e h = ground arith

pub add_sizes :
    (one db zb za da suffix precision : ℕ) (alternative dot : Bool)
    → dot ≡ (alternative || not (precision == 0))
    → za + da + suffix ≡ precision
    → one + db + zb + (if dot then 1 else 0) + za + da + suffix
      ≡ one + (db + (zb + (if dot then suc precision else 0)))
add_sizes one db zb za da suffix precision alternative dot e sum = ground arith

pub size_bound :
    (one db zb precision exponent : ℕ) (dot : Bool)
    → one ≤ 1
    → db + zb ≤ exponent + 20
    → exponent + precision + 32 < 2 ^ 32
    → one + (db + (zb + (if dot then suc precision else 0))) < 2 ^ 32
size_bound one db zb precision exponent dot h h' h'' = ground arith

pub one_if_set_bound : (c : ℕ) → one_if_set c ≤ 1
one_if_set_bound c = ground arith
