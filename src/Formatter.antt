-- ===== src/Formatter.antt =====
-- reckless/src/template_formatter.cpp and reckless/include/reckless/template_formatter.hpp: format
-- strings. A pointer into a C string is what is left of the string; the terminating 0 is `[]`.
pub mod Expand
pub mod Parse
pub mod Convert
pub mod Message
use reckless.Prelude.{
  ℕ, zero, suc, ◌+◌, ◌-◌, ◌*◌, ◌/◌, ◌%◌, ◌^◌, Bool, true, false, ◌&&◌, ◌||◌, List, [], ◌∷◌, ◌++◌,
  Option, none, some, leb, ◌==◌, if◌then◌else◌, length, codes,
}
use reckless.Prelude.Int.{ℤ, pos, negsuc}
use reckless.Output.{Buffer, Outcome, done, blocked, return, ◌>>=◌, ◌>>◌, emit}
use reckless.Ntoa.Itoa.{
  ConversionSpecification, Integer, int, unsigned_int, long, unsigned_long, long_long,
  unsigned_long_long, itoa_base10, itoa_base16, unspecified_precision,
}

abbrev pub is_digit : ℕ → Bool
is_digit c = leb b'0' c && leb c b'9'

-- The loops of `atou`: `v` is an `unsigned`.
pub atou_from : ℕ → List ℕ → ℕ × List ℕ
atou_from v [] = (v, [])
atou_from v (c ∷ s) =
    let rest = atou_from ((10 * v + c - b'0') % 2 ^ 32) s in if is_digit c then rest else (v, c ∷ s)

-- `atou`, which is only called at a digit.
pub atou : List ℕ → ℕ × List ℕ
atou [] = (0, [])
atou (c ∷ s) = atou_from (c - b'0') s

pub record Flags : Type 0 where
  pub left_justify : Bool
  pub alternative_form : Bool
  pub show_plus_sign : Bool
  pub blank_sign : Bool
  pub pad_with_zeroes : Bool

abbrev pub no_flags : Flags
no_flags = record {
  left_justify = false;
  alternative_form = false;
  show_plus_sign = false;
  blank_sign = false;
  pad_with_zeroes = false;
}

-- One flag character, or `none` if it is no flag.
unfoldable pub set_flag : ℕ → Flags → Option Flags
set_flag flag f =
    if flag == b'-'
    then some (record f { left_justify = true })
    else if flag == b'+'
    then some (record f { show_plus_sign = true })
    else if flag == b' '
    then some (record f { blank_sign = true })
    else if flag == b'#'
    then some (record f { alternative_form = true })
    else if flag == b'0'
    then some (record f { pad_with_zeroes = true })
    else none

unfoldable pub parse_flags : Flags → List ℕ → Flags × List ℕ
parse_flags f [] = (f, [])
parse_flags f (c ∷ s) = elim (set_flag c f) [ none ↦ (f, c ∷ s) | some f' ↦ parse_flags f' s ]

-- `isdigit(*pformat)? atou(pformat) : otherwise`.
unfoldable pub number_or : ℕ → List ℕ → ℕ × List ℕ
number_or otherwise [] = (otherwise, [])
number_or otherwise (c ∷ s) = if is_digit c then atou (c ∷ s) else (otherwise, c ∷ s)

unfoldable pub parse_precision : List ℕ → ℕ × List ℕ
parse_precision [] = (unspecified_precision, [])
parse_precision (c ∷ s) =
    if c == b'.' then number_or unspecified_precision s else (unspecified_precision, c ∷ s)

unfoldable pub parse_conversion_specification : List ℕ → ConversionSpecification × List ℕ
parse_conversion_specification pformat =
    let (f, s1) = parse_flags no_flags pformat in
    let (width, s2) = number_or 0 s1 in
    let (precision, s3) = parse_precision s2 in
    (
      record {
        minimum_field_width = width;
        precision = precision;
        plus_sign = if f.show_plus_sign then b'+' else if f.blank_sign then b' ' else 0;
        left_justify = f.left_justify;
        alternative_form = f.alternative_form;
        pad_with_zeroes = f.pad_with_zeroes;
        uppercase = false;
      },
      s3,
    )

-- `strchrnul(pformat, '%')`: what stands before the first `%`, and what is left from there.
pub strchrnul : List ℕ → List ℕ × List ℕ
strchrnul [] = ([], [])
strchrnul (c ∷ s) =
    let (before, rest) = strchrnul s in if c == b'%' then ([], c ∷ s) else (c ∷ before, rest)

-- The specification that `format` fills in for a pointer.
abbrev pub pointer_specification : ConversionSpecification
pointer_specification = record {
  minimum_field_width = 0;
  precision = 1;
  plus_sign = 0;
  left_justify = false;
  alternative_form = true;
  pad_with_zeroes = false;
  uppercase = false;
}

-- The arguments for which `format` is overloaded. A `char` counts as `int`, as do the shorter
-- integers; a string has the address at which it stands.
pub data Value (D : Type 0) : Type 0 where
  char : ℤ → Value D
  integer : Integer → Value D
  floating : D → Value D
  c_string : ℕ → List ℕ → Value D
  std_string : List ℕ → Value D
  pointer : ℕ → Value D

-- `static_cast<char>(v)`, as a byte.
abbrev pub byte_of : ℤ → ℕ
byte_of (pos n) = n % 256
byte_of (negsuc n) = 255 - n % 256

module _ (b : Buffer) where
  -- `p = reserve(len); memcpy(p, …, len); commit(len);`
  pub append : List ℕ → b.State → Outcome b.Error b.State (Unit {0})
  append bytes = emit b (length bytes) (λ mem. bytes)

  pub append_percent : b.State → Outcome b.Error b.State (Unit {0})
  append_percent = append (b'%' ∷ [])

  -- The round of `next_specifier`'s loop from the `%` that it found; `again` is the next round.
  pub at_specifier :
      (List ℕ → b.State → Outcome b.Error b.State (Option (List ℕ)))
      → List ℕ
      → b.State
      → Outcome b.Error b.State (Option (List ℕ))
  at_specifier again [] = return none
  at_specifier again (_ ∷ []) = return (some [])
  at_specifier again (_ ∷ c ∷ s) = elim (c == b'%') [
    | true ↦ append_percent >> again s
    | false ↦ return (some (c ∷ s))
  ]

  -- The loop of `next_specifier`; one round more than there are characters is enough.
  pub specifier_loop : ℕ → List ℕ → b.State → Outcome b.Error b.State (Option (List ℕ))
  specifier_loop zero pformat = blocked
  specifier_loop (suc fuel) pformat =
      let (before, rest) = strchrnul pformat in
      append before >> at_specifier (specifier_loop fuel) rest

  pub next_specifier : List ℕ → b.State → Outcome b.Error b.State (Option (List ℕ))
  next_specifier pformat = specifier_loop (suc (length pformat)) pformat

  pub generic_format_int : List ℕ → Integer → b.State → Outcome b.Error b.State (Option (List ℕ))
  generic_format_int pformat v =
      let (spec, s) = parse_conversion_specification pformat in
      elim s [
        | [] ↦ return none
        | f ∷ rest ↦
            if f == b'd'
            then itoa_base10 b v spec >> return (some rest)
            else if f == b'x'
            then itoa_base16 b v (record spec { uppercase = false }) >> return (some rest)
            else if f == b'X'
            then itoa_base16 b v (record spec { uppercase = true }) >> return (some rest)
            else return none
      ]

  pub generic_format_char : List ℕ → ℤ → b.State → Outcome b.Error b.State (Option (List ℕ))
  generic_format_char [] v = generic_format_int [] (int v)
  generic_format_char (f ∷ rest) v =
      if f == b's'
      then append (byte_of v ∷ []) >> return (some rest)
      else generic_format_int (f ∷ rest) (int v)

  pub format_c_string : List ℕ → ℕ → List ℕ → b.State → Outcome b.Error b.State (Option (List ℕ))
  format_c_string [] address v = return none
  format_c_string (c ∷ rest) address v =
      if c == b's'
      then append v >> return (some rest)
      else if c == b'p'
      then itoa_base16 b (unsigned_long address) pointer_specification >> return (some rest)
      else return none

  pub format_std_string : List ℕ → List ℕ → b.State → Outcome b.Error b.State (Option (List ℕ))
  format_std_string [] v = return none
  format_std_string (c ∷ rest) v = if c == b's' then append v >> return (some rest) else return none

  pub format_pointer : List ℕ → ℕ → b.State → Outcome b.Error b.State (Option (List ℕ))
  format_pointer [] address = return none
  format_pointer (c ∷ rest) address =
      if c == b'p' || c == b's'
      then itoa_base16 b (unsigned_long address) pointer_specification >> return (some rest)
      else return none

-- The type of floating-point numbers with `ftoa_base10_f`.
module _ (b : Buffer) {D : Type 0}
    (ftoa : D → ConversionSpecification → b.State → Outcome b.Error b.State (Unit {0})) where
  pub generic_format_float : List ℕ → D → b.State → Outcome b.Error b.State (Option (List ℕ))
  generic_format_float pformat v =
      let (spec, s) = parse_conversion_specification pformat in
      elim s [
        | [] ↦ return none
        | f ∷ rest ↦ if f == b'f' then ftoa v spec >> return (some rest) else return none
      ]

  -- The overloads of `format` for one argument.
  pub format_value : List ℕ → Value D → b.State → Outcome b.Error b.State (Option (List ℕ))
  format_value pformat (char v) = generic_format_char b pformat v
  format_value pformat (integer v) = generic_format_int b pformat v
  format_value pformat (floating v) = generic_format_float pformat v
  format_value pformat (c_string address v) = format_c_string b pformat address v
  format_value pformat (std_string v) = format_std_string b pformat v
  format_value pformat (pointer address) = format_pointer b pformat address

  -- `template_formatter::format` with no argument left: `fuel` specifiers at most.
  pub format_rest : ℕ → List ℕ → b.State → Outcome b.Error b.State (Unit {0})
  format_rest zero pformat = blocked
  format_rest (suc fuel) pformat = do
    next ← next_specifier b pformat
    elim next [ none ↦ return tt | some p ↦ append_percent b >> format_rest fuel p ]

  -- `template_formatter::format`.
  pub format : List ℕ → List (Value D) → b.State → Outcome b.Error b.State (Unit {0})
  format pformat [] = format_rest (suc (length pformat)) pformat
  format pformat (v ∷ args) = do
    next ← next_specifier b pformat
    elim next [
      | none ↦ return tt
      | some p ↦ do
        after ← format_value p v
        elim after [ some p' ↦ format p' args | none ↦ append_percent b >> format p args ]
    ]
