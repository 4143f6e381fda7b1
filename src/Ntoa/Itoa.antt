-- ===== src/Ntoa/Itoa.antt =====
-- reckless/src/ntoa.cpp and reckless/include/reckless/ntoa.hpp: integers in base 10 and base 16.
pub mod Text
pub mod Spec
pub mod Laws
use reckless.Prelude.{
  ℕ, ◌+◌, ◌-◌, ◌^◌, List, Bool, true, false, not, ◌&&◌, ltb, ◌==◌, if◌then◌else◌, add32, sub32, max,
}
use reckless.Prelude.Int.{ℤ, pos, negsuc}
use reckless.Output.{Buffer, Outcome, emit}
use reckless.Ntoa.Log.{log10_u32, log10_u64, log16_u32, log16_u64}
use reckless.Ntoa.Cursor.{Cursor, put, fill, start}
use reckless.Ntoa.Digits.{utoa_base10, utoa_base16}

-- `UNSPECIFIED_PRECISION`: the largest `unsigned`.
abbrev pub unspecified_precision : ℕ
unspecified_precision = 2 ^ 32 - 1

-- `plus_sign` is a character, 0 for none.
pub record ConversionSpecification : Type 0 where
  pub minimum_field_width : ℕ
  pub precision : ℕ
  pub plus_sign : ℕ
  pub left_justify : Bool
  pub alternative_form : Bool
  pub pad_with_zeroes : Bool
  pub uppercase : Bool

-- The constructor of `conversion_specification`.
abbrev pub default_specification : ConversionSpecification
default_specification = record {
  minimum_field_width = 0;
  precision = unspecified_precision;
  plus_sign = 0;
  left_justify = false;
  alternative_form = false;
  pad_with_zeroes = false;
  uppercase = false;
}

-- The width of the unsigned type that a conversion is compiled for.
pub data Width : Type 0 where
  w32 w64 : Width

pub log10 : Width → ℕ → ℕ
log10 w32 = log10_u32
log10 w64 = log10_u64

pub log16 : Width → ℕ → ℕ
log16 w32 = log16_u32
log16 w64 = log16_u64

-- `!!c`.
abbrev pub one_if_set : ℕ → ℕ
one_if_set c = if c == 0 then 0 else 1

-- How the characters of a field are shared out, from left to right or with the padding first.
pub record Layout : Type 0 where
  pub sign : ℕ
  pub prefix : ℕ
  pub zeroes : ℕ
  pub digits : ℕ
  pub padding : ℕ
  pub size : ℕ

-- The computation of the sizes, which is the same in both bases.
pub plan : Bool → ℕ → ℕ → ConversionSpecification → Layout
plan negative prefix digits cs =
    let sign = if negative then b'-' else cs.plus_sign in
    let precision = if cs.precision == unspecified_precision then 1 else cs.precision in
    let zeroes = if ltb digits precision then precision - digits else 0 in
    let content_size = add32 (add32 (add32 (one_if_set sign) prefix) zeroes) digits in
    let size = max content_size cs.minimum_field_width in
    let padding = size - content_size in
    let move =
      cs.pad_with_zeroes && not cs.left_justify && (cs.precision == unspecified_precision) in
    record {
      sign = sign;
      prefix = prefix;
      zeroes = if move then add32 zeroes padding else zeroes;
      digits = digits;
      padding = if move then 0 else padding;
      size = size;
    }

-- `if(sign) str[--pos] = sign;`
pub put_sign : ℕ → Cursor → Cursor
put_sign sign cur = if sign == 0 then cur else put sign cur

-- `if(prefix) { str[--pos] = cs.uppercase? 'X' : 'x'; str[--pos] = '0'; }`
pub put_prefix : ℕ → Bool → Cursor → Cursor
put_prefix prefix uppercase cur =
    if prefix == 0 then cur else put b'0' (put (if uppercase then b'X' else b'x') cur)

-- The writes of `itoa_generic_base10` into the reserved memory, in the order of the source.
pub write_base10 : Layout → ℕ → ConversionSpecification → List ℕ → List ℕ
write_base10 l value cs str =
    let c0 = start str l.size in
    let c1 = if cs.left_justify then fill b' ' l.padding c0 else c0 in
    let c2 = utoa_base10 c1 value in
    let c3 = fill b'0' l.zeroes c2 in
    let c4 = put_sign l.sign c3 in
    let c5 = if cs.left_justify then c4 else fill b' ' l.padding c4 in c5.str

-- The writes of `itoa_generic_base16`.
pub write_base16 : Layout → ℕ → ConversionSpecification → List ℕ → List ℕ
write_base16 l value cs str =
    let c0 = start str l.size in
    let c1 = if cs.left_justify then fill b' ' l.padding c0 else c0 in
    let c2 = utoa_base16 cs.uppercase c1 value in
    let c3 = fill b'0' l.zeroes c2 in
    let c4 = put_prefix l.prefix cs.uppercase c3 in
    let c5 = put_sign l.sign c4 in
    let c6 = if cs.left_justify then c5 else fill b' ' l.padding c5 in c6.str

pub plan_base10 : Width → Bool → ℕ → ConversionSpecification → Layout
plan_base10 w negative value cs =
    plan negative 0 (if value == 0 then 0 else add32 (log10 w value) 1) cs

pub plan_base16 : Width → Bool → ℕ → ConversionSpecification → Layout
plan_base16 w negative value cs =
    let digits = if value == 0 then 0 else add32 (log16 w value) 1 in
    let prefix = if value == 0 then 0 else if cs.alternative_form then 2 else 0 in
    plan negative prefix digits cs

-- The types for which `itoa_base10` and `itoa_base16` are declared; `long` has 64 bits.
pub data Integer : Type 0 where
  int : ℤ → Integer
  unsigned_int : ℕ → Integer
  long : ℤ → Integer
  unsigned_long : ℕ → Integer
  long_long : ℤ → Integer
  unsigned_long_long : ℕ → Integer

module _ (b : Buffer) where
  pub itoa_generic_base10 :
      Width → Bool → ℕ → ConversionSpecification → b.State → Outcome b.Error b.State (Unit {0})
  itoa_generic_base10 w negative value cs =
      let l = plan_base10 w negative value cs in emit b l.size (write_base10 l value cs)

  -- `unsigned_cast(-value)` of a negative value is its absolute value, in two's complement also
  -- for the least one.
  pub itoa_signed_base10 :
      Width → ℤ → ConversionSpecification → b.State → Outcome b.Error b.State (Unit {0})
  itoa_signed_base10 w (pos n) cs = itoa_generic_base10 w false n cs
  itoa_signed_base10 w (negsuc n) cs = itoa_generic_base10 w true (n + 1) cs

  pub itoa_base10 : Integer → ConversionSpecification → b.State → Outcome b.Error b.State (Unit {0})
  itoa_base10 (int v) = itoa_signed_base10 w32 v
  itoa_base10 (unsigned_int v) = itoa_generic_base10 w32 false v
  itoa_base10 (long v) = itoa_signed_base10 w64 v
  itoa_base10 (unsigned_long v) = itoa_generic_base10 w64 false v
  itoa_base10 (long_long v) = itoa_signed_base10 w64 v
  itoa_base10 (unsigned_long_long v) = itoa_generic_base10 w64 false v

  pub itoa_generic_base16 :
      Width → Bool → ℕ → ConversionSpecification → b.State → Outcome b.Error b.State (Unit {0})
  itoa_generic_base16 w negative value cs =
      let l = plan_base16 w negative value cs in emit b l.size (write_base16 l value cs)

  pub itoa_signed_base16 :
      Width → ℤ → ConversionSpecification → b.State → Outcome b.Error b.State (Unit {0})
  itoa_signed_base16 w (pos n) cs = itoa_generic_base16 w false n cs
  itoa_signed_base16 w (negsuc n) cs = itoa_generic_base16 w true (n + 1) cs

  pub itoa_base16 : Integer → ConversionSpecification → b.State → Outcome b.Error b.State (Unit {0})
  itoa_base16 (int v) = itoa_signed_base16 w32 v
  itoa_base16 (unsigned_int v) = itoa_generic_base16 w32 false v
  itoa_base16 (long v) = itoa_signed_base16 w64 v
  itoa_base16 (unsigned_long v) = itoa_generic_base16 w64 false v
  itoa_base16 (long_long v) = itoa_signed_base16 w64 v
  itoa_base16 (unsigned_long_long v) = itoa_generic_base16 w64 false v
