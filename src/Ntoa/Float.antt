-- ===== src/Ntoa/Float.antt =====
-- reckless/src/ntoa.cpp: floating-point numbers. The decomposition of a `double`, which stands on
-- the x87 unit and the C library, is a parameter; what is done with the 18 digits is modelled.
pub mod Special
pub mod Rounding
pub mod Sizes
pub mod Fixed
pub mod Exponent
pub mod General
use reckless.Prelude.{
  ℕ, zero, suc, ◌+◌, ◌-◌, ◌*◌, ◌/◌, ◌%◌, ◌^◌, List, [], ◌∷◌, Bool, true, false, not, ◌&&◌, ◌||◌,
  ltb, leb, ◌==◌, if◌then◌else◌, add32, sub32, add64, min, max, get_or, set, codes,
}
use reckless.Prelude.Int.{ℤ, pos, negsuc}
use reckless.Ntoa.Significand.{
  Decimal18, power, rounded_rshift, count_trailing_zeroes, count_trailing_zeroes_after_dot,
}
use reckless.Output.{Buffer, Outcome, emit}
use reckless.Ntoa.Cursor.{Cursor, put, fill, start, memset, memcpy}
use reckless.Ntoa.Digits.{utoa_base10, utoa_digits}
use reckless.Ntoa.Itoa.{ConversionSpecification, unspecified_precision, one_if_set, put_sign}

-- `sign` and the sizes of `write_special_category`.
pub special_text : ℕ → ℕ → ConversionSpecification → List ℕ → List ℕ → List ℕ
special_text sign padding cs category str =
    let place = one_if_set sign in
    let signed = if sign == 0 then str else set str 0 sign in
    let spaced = memset str 0 b' ' padding in
    let spaced_signed = if sign == 0 then spaced else set spaced padding sign in
    if cs.left_justify
    then memset (memcpy signed place category) (place + 3) b' ' padding
    else memcpy spaced_signed (padding + place) category

-- How the characters of a number with a dot are shared out, from left to right.
pub record Places : Type 0 where
  pub digits_before_dot : ℕ
  pub zeroes_before_dot : ℕ
  pub zeroes_after_dot : ℕ
  pub digits_after_dot : ℕ

-- The first `if` of `ftoa_base10_f_normal`.
pub places : ℤ → ℕ → ℕ → Places
places (negsuc n) mantissa precision =
    let zeroes_after_dot = min n precision in
    record {
      digits_before_dot = 0;
      zeroes_before_dot = 1;
      zeroes_after_dot = zeroes_after_dot;
      digits_after_dot = min 18 (precision - zeroes_after_dot);
    }
places (pos n) mantissa precision =
    if leb 17 n
    then record {
      digits_before_dot = 18;
      zeroes_before_dot = n + 1 - 18;
      zeroes_after_dot = precision;
      digits_after_dot = 0;
    }
    else if mantissa == 0
    then record {
      digits_before_dot = 0;
      zeroes_before_dot = 1;
      zeroes_after_dot = 0;
      digits_after_dot = 0;
    }
    else record {
      digits_before_dot = n + 1;
      zeroes_before_dot = 0;
      zeroes_after_dot = 0;
      digits_after_dot = min (18 - (n + 1)) precision;
    }

-- `if(carry)`: room for the digit that rounding has added.
pub make_room : Places → Places
make_room p =
    if p.zeroes_after_dot == 0
    then record p { digits_before_dot = p.digits_before_dot + 1; zeroes_before_dot = 0 }
    else record p {
      zeroes_after_dot = p.zeroes_after_dot - 1;
      digits_after_dot = p.digits_after_dot + 1;
    }

-- What `ftoa_base10_f_normal` and `ftoa_base10_e_normal` know before they reserve the memory.
pub record FloatLayout : Type 0 where
  pub sign : ℕ
  pub places : Places
  pub suffix_zeroes : ℕ
  pub dot : Bool
  pub mantissa : ℕ
  pub pad_zeroes : ℕ
  pub padding : ℕ
  pub size : ℕ

pub plan_f : Decimal18 → ℕ → ConversionSpecification → FloatLayout
plan_f dv precision cs =
    let sign = if dv.sign then b'-' else cs.plus_sign in
    let before = places dv.exponent dv.mantissa precision in
    let suffix_zeroes = sub32 precision (add32 before.zeroes_after_dot before.digits_after_dot) in
    let behind_dot = (before.zeroes_after_dot + before.digits_after_dot + suffix_zeroes) % 2 ^ 32 in
    let dot = cs.alternative_form || not (behind_dot == 0) in
    let mantissa_digits = before.digits_before_dot + before.digits_after_dot in
    let mantissa = rounded_rshift dv.sign dv.mantissa (18 - mantissa_digits) in
    let carry = leb (power mantissa_digits) mantissa in
    let after = if carry then make_room before else before in
    let content_size =
      (one_if_set sign
        + after.digits_before_dot
        + after.zeroes_before_dot
        + (if dot then 1 else 0)
        + after.zeroes_after_dot
        + after.digits_after_dot
        + suffix_zeroes)
      % 2 ^ 32 in
    let size = max cs.minimum_field_width content_size in
    let padding = size - content_size in
    let move = cs.pad_with_zeroes && not cs.left_justify in
    record {
      sign = sign;
      places = after;
      suffix_zeroes = suffix_zeroes;
      dot = dot;
      mantissa = mantissa;
      pad_zeroes = if move then padding else 0;
      padding = if move then 0 else padding;
      size = size;
    }

-- `value = utoa_generic_base10_preallocated(str, pos, value, digits); pos -= digits;`
pub put_digits : Cursor → ℕ → ℕ → Cursor × ℕ
put_digits cur value digits =
    let (str, value') = utoa_digits cur value digits in
    (record { str = str; pos = sub32 cur.pos digits }, value')

-- `if(dot)`: what stands behind the dot, and the dot.
pub write_fraction : FloatLayout → Cursor → Cursor × ℕ
write_fraction l cur =
    let c1 = fill b'0' l.suffix_zeroes cur in
    let (c2, mantissa) = put_digits c1 l.mantissa l.places.digits_after_dot in
    let c3 = fill b'0' l.places.zeroes_after_dot c2 in
    if l.dot then (put b'.' c3, mantissa) else (cur, l.mantissa)

-- The writes of `ftoa_base10_f_normal`.
pub write_f : FloatLayout → ConversionSpecification → List ℕ → List ℕ
write_f l cs str =
    let c0 = start str l.size in
    let c1 = if cs.left_justify then fill b' ' l.padding c0 else c0 in
    let (c2, mantissa) = write_fraction l c1 in
    let c3 = fill b'0' l.places.zeroes_before_dot c2 in
    let c4 = utoa_base10 c3 mantissa in
    let c5 = fill b'0' l.pad_zeroes c4 in
    let c6 = put_sign l.sign c5 in
    let c7 = if cs.left_justify then c6 else fill b' ' l.padding c6 in c7.str

-- The sign and the absolute value of the exponent.
abbrev pub exponent_parts : ℤ → ℕ × ℕ
exponent_parts (pos n) = (b'+', n)
exponent_parts (negsuc n) = (b'-', n + 1)

-- Two digits, or three from 100 on.
abbrev pub exponent_digits : ℕ → ℕ
exponent_digits exponent = if ltb exponent 100 then 2 else 3

-- `places` holds the one digit in front of the dot and `precision` digits behind it.
pub plan_e : Decimal18 → ℕ → ConversionSpecification → FloatLayout
plan_e dv precision cs =
    let (exponent_sign, exponent) = exponent_parts dv.exponent in
    let sign = if dv.sign then b'-' else cs.plus_sign in
    let dot = not (precision == 0) || cs.alternative_form in
    let content_size =
      (one_if_set sign + 1 + (if dot then 1 else 0) + precision + 1 + 1 + exponent_digits exponent)
      % 2 ^ 32 in
    let size = max cs.minimum_field_width content_size in
    let padding = size - content_size in
    let move = cs.pad_with_zeroes && not cs.left_justify in
    record {
      sign = sign;
      places = record {
        digits_before_dot = 1;
        zeroes_before_dot = 0;
        zeroes_after_dot = 0;
        digits_after_dot = precision;
      };
      suffix_zeroes = 0;
      dot = dot;
      mantissa = rounded_rshift dv.sign dv.mantissa (sub32 18 (add32 precision 1));
      pad_zeroes = if move then padding else 0;
      padding = if move then 0 else padding;
      size = size;
    }

-- The writes of `ftoa_base10_e_normal`. The sign goes to `str[0]`, whatever stands there.
pub write_e : FloatLayout → ℤ → ConversionSpecification → List ℕ → List ℕ
write_e l exponent10 cs str =
    let (exponent_sign, exponent) = exponent_parts exponent10 in
    let c0 = start str l.size in
    let c1 = if cs.left_justify then fill b' ' l.padding c0 else c0 in
    let (c2, unused) = put_digits c1 exponent (exponent_digits exponent) in
    let c3 = put b'e' (put exponent_sign c2) in
    let (c4, mantissa) = put_digits c3 l.mantissa l.places.digits_after_dot in
    let c5 = if l.dot then put b'.' c4 else c4 in
    let c6 = put ((b'0' + mantissa) % 256) c5 in
    let c7 = fill b'0' l.pad_zeroes c6 in
    let c8 = if l.sign == 0 then c7 else record c7 { str = set c7.str 0 l.sign } in
    let c9 = if cs.left_justify then c8 else fill b' ' l.padding c8 in c9.str

-- What `std::fpclassify` and `std::signbit` say of a value, with the 18 digits of a finite one.
pub data Category : Type 0 where
  fp_nan : Bool → Category
  fp_infinite : Bool → Category
  fp_finite : Decimal18 → Category

-- `p > dv.exponent && dv.exponent >= minimum_exponent`. `p` is an `int`, here as its 32 bits: from
-- 2^31 on it stands for p - 2^32, which is negative.
abbrev pub is_plain : ℕ → ℤ → Bool
is_plain p (pos n) = ltb n p && ltb p (2 ^ 31)
is_plain p (negsuc n) = leb n 3 && (ltb p (2 ^ 31) || leb (2 ^ 32) (p + n))

-- `std::max(0, p - 1 - dv.exponent - trailing_zeroes)`, with the difference read as an `int`.
abbrev pub plain_precision : ℕ → ℤ → ℕ → ℕ
plain_precision p (pos n) trailing_zeroes =
    if ltb p (2 ^ 31) then p - 1 - n - trailing_zeroes else 0
plain_precision p (negsuc n) trailing_zeroes =
    (if ltb p (2 ^ 31) then p + n else p + n - 2 ^ 32) - trailing_zeroes

-- `p` of `ftoa_base10_g`: `std::min(p, 18)` of a negative `int` is that `int`.
unfoldable pub precision_g : ConversionSpecification → ℕ
precision_g cs =
    if cs.precision == unspecified_precision
    then 6
    else if cs.precision == 0
    then 1
    else if cs.alternative_form || leb (2 ^ 31) cs.precision
    then cs.precision
    else min cs.precision 18

module _ (b : Buffer) where
  pub write_special_category :
      Bool → ConversionSpecification → List ℕ → b.State → Outcome b.Error b.State (Unit {0})
  write_special_category negative cs category =
      let sign = if negative then b'-' else cs.plus_sign in
      let content_size = 3 + one_if_set sign in
      let size = max content_size cs.minimum_field_width in
      emit b size (special_text sign (size - content_size) cs category)

  pub write_nan : Bool → ConversionSpecification → b.State → Outcome b.Error b.State (Unit {0})
  write_nan negative cs = write_special_category negative cs (codes "nan")

  pub write_inf : Bool → ConversionSpecification → b.State → Outcome b.Error b.State (Unit {0})
  write_inf negative cs = write_special_category negative cs (codes "inf")

  pub ftoa_base10_f_normal :
      Decimal18 → ℕ → ConversionSpecification → b.State → Outcome b.Error b.State (Unit {0})
  ftoa_base10_f_normal dv precision cs =
      let l = plan_f dv precision cs in emit b l.size (write_f l cs)

  pub ftoa_base10_e_normal :
      Decimal18 → ℕ → ConversionSpecification → b.State → Outcome b.Error b.State (Unit {0})
  ftoa_base10_e_normal dv precision cs =
      let l = plan_e dv precision cs in emit b l.size (write_e l dv.exponent cs)

-- A `double` and its decomposition.
module _ (b : Buffer) {D : Type 0} (classify : D → Category) where
  pub ftoa_base10_f : D → ConversionSpecification → b.State → Outcome b.Error b.State (Unit {0})
  ftoa_base10_f value cs = elim (classify value) [
    | fp_nan negative ↦ write_nan b negative cs
    | fp_infinite negative ↦ write_inf b negative cs
    | fp_finite dv ↦
        ftoa_base10_f_normal b dv
          (if cs.precision == unspecified_precision then 6 else cs.precision) cs
  ]

  pub ftoa_base10_g : D → ConversionSpecification → b.State → Outcome b.Error b.State (Unit {0})
  ftoa_base10_g value cs = elim (classify value) [
    | fp_nan negative ↦ write_nan b negative cs
    | fp_infinite negative ↦ write_inf b negative cs
    | fp_finite dv ↦
        let p = precision_g cs in
        let truncated_digits = sub32 18 p in
        let after_dot = count_trailing_zeroes_after_dot dv - truncated_digits in
        let trailing_zeroes = if cs.alternative_form then 0 else after_dot in
        let zeroes = if cs.alternative_form then 0 else count_trailing_zeroes dv truncated_digits in
        if is_plain p dv.exponent
        then ftoa_base10_f_normal b dv (plain_precision p dv.exponent trailing_zeroes) cs
        else ftoa_base10_e_normal b dv (sub32 (sub32 p 1) zeroes) cs
  ]
