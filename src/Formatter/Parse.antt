-- ===== src/Formatter/Parse.antt =====
-- The numbers in a conversion specification: `atou` of reckless/src/template_formatter.cpp.
use native.Mathlib.Nat.{pow-suc, pow-zero}
use reckless.Prelude.{
  none, leb, ◌≤◌, ◌&&◌, ℕ, zero, suc, ◌+◌, ◌-◌, ◌*◌, ◌/◌, ◌%◌, ◌^◌, ◌<◌, ◌≡◌, refl, ◌∙◌, List, [],
  ◌∷◌, Bool, true, false, arith,
}
use reckless.Ntoa.Digits.Base10.{decimal}
use reckless.Ntoa.Itoa.{default_specification, unspecified_precision}
use reckless.Formatter.{
  is_digit, atou_from, atou, number_or, Flags, no_flags, set_flag, parse_flags, parse_precision,
  parse_conversion_specification,
}

-- The text begins with a digit.
abbrev pub starts_with_digit : List ℕ → Bool
starts_with_digit [] = false
starts_with_digit (c ∷ s) = is_digit c

digit : (d : ℕ) → d < 10 → is_digit (b'0' + d) ≡ true
digit d h = ground arith

decimal-starts : (k n : ℕ) (rest : List ℕ) → starts_with_digit (decimal (suc k) n rest) ≡ true
unfolding decimal
decimal-starts zero n rest = digit (n % 10) (omega arith)
decimal-starts (suc k) n rest = decimal-starts k (n / 10) ((b'0' + n % 10) ∷ rest)

atou_from-stop :
    (v : ℕ) (rest : List ℕ) → starts_with_digit rest ≡ false → atou_from v rest ≡ (v, rest)
unfolding atou_from
atou_from-stop v [] h = refl
atou_from-stop v (c ∷ rest) h = rw h refl

atou_from-decimal :
    (k n v : ℕ) (rest : List ℕ)
    → n < 10 ^ k
    → v * 10 ^ k + n < 2 ^ 32
    → atou_from v (decimal k n rest) ≡ atou_from (v * 10 ^ k + n) rest
unfolding atou_from decimal
atou_from-decimal zero n v rest h small =
    let h' = rw (pow-zero 10) at h in
    let e : v * 10 ^ 0 + n ≡ v = rw (pow-zero 10) (omega arith) in rw e refl
atou_from-decimal (suc k) n v rest h small =
    let h' = rw (pow-suc 10 k) at h in
    let small' = rw (pow-suc 10 k) at small in
    let p : ℕ = v * 10 ^ k in
    let e0 : v * (10 ^ k * 10) ≡ 10 * p = grind arith in
    let e : (10 * (p + n / 10) + (b'0' + n % 10) - b'0') % 2 ^ 32 ≡ v * (10 ^ k * 10) + n =
      omega arith in
    atou_from-decimal k (n / 10) v ((b'0' + n % 10) ∷ rest) (omega arith) (omega arith)
    ∙ rw (pow-suc 10 k, digit (n % 10) (omega arith), e) refl

atou-from_zero : (s : List ℕ) → starts_with_digit s ≡ true → atou s ≡ atou_from 0 s
unfolding atou atou_from
atou-from_zero [] h = cc
atou-from_zero (c ∷ s) h =
    let e : (10 * 0 + c - b'0') % 2 ^ 32 ≡ c - b'0' = ground arith in rw (h, e) refl

number_or-atou :
    (otherwise : ℕ) (s : List ℕ) → starts_with_digit s ≡ true → number_or otherwise s ≡ atou s
unfolding number_or
number_or-atou otherwise [] h = cc
number_or-atou otherwise (c ∷ s) h = rw h refl

-- The decimal digits of a number below 2^32, with leading zeroes or without, at least one of them,
-- and behind them text that does not begin with a digit: the parser of the width and the precision
-- gives the number and that text.
pub number_or-decimal :
    (otherwise k n : ℕ) (rest : List ℕ)
    → n < 10 ^ suc k
    → n < 2 ^ 32
    → starts_with_digit rest ≡ false
    → number_or otherwise (decimal (suc k) n rest) ≡ (n, rest)
number_or-decimal otherwise k n rest h small other =
    let text = decimal (suc k) n rest in
    let starts = decimal-starts k n rest in
    let e : 0 * 10 ^ suc k + n ≡ n = omega arith in
    number_or-atou otherwise text starts
    ∙ atou-from_zero text starts
    ∙ atou_from-decimal (suc k) n 0 rest h (omega arith)
    ∙ rw e (atou_from-stop n rest other)

abbrev starts_with_nonzero : List ℕ → Bool
starts_with_nonzero [] = false
starts_with_nonzero (c ∷ s) = leb b'1' c && leb c b'9'

nonzero : (d : ℕ) → 0 < d → d < 10 → starts_with_nonzero ((b'0' + d) ∷ []) ≡ true
nonzero d p h = ground arith

decimal-nonzero :
    (k n : ℕ) (rest : List ℕ)
    → 10 ^ k ≤ n
    → n < 10 ^ suc k
    → starts_with_nonzero (decimal (suc k) n rest) ≡ true
unfolding decimal
decimal-nonzero zero n rest low high = nonzero (n % 10) (omega arith) (omega arith)
decimal-nonzero (suc k) n rest low high =
    let low' = rw (pow-suc 10 k) at low in
    let high' = rw (pow-suc 10 (suc k)) at high in
    decimal-nonzero k (n / 10) ((b'0' + n % 10) ∷ rest) (omega arith) (omega arith)

-- A digit from 1 to 9 is no flag.
no_flag : (c : ℕ) (f : Flags) → leb b'1' c && leb c b'9' ≡ true → set_flag c f ≡ none
unfolding set_flag
no_flag c f h = ground arith

parse_flags-stop :
    (f : Flags) (s : List ℕ) → starts_with_nonzero s ≡ true → parse_flags f s ≡ (f, s)
unfolding parse_flags
parse_flags-stop f [] h = cc
parse_flags-stop f (c ∷ s) h = rw (no_flag c f h, parse_flags) refl

-- A conversion specification of a width below 2^32 without leading zeroes, a dot and a precision
-- below 2^32, before text that does not begin with a digit, is parsed to that width and that
-- precision with no flag set, and the text is left.
pub parse-width_precision :
    (k j width precision : ℕ) (rest : List ℕ)
    → 10 ^ k ≤ width
    → width < 10 ^ suc k
    → width < 2 ^ 32
    → precision < 10 ^ suc j
    → precision < 2 ^ 32
    → starts_with_digit rest ≡ false
    → parse_conversion_specification (decimal (suc k) width (b'.' ∷ decimal (suc j) precision rest))
      ≡ (record default_specification { minimum_field_width = width; precision = precision }, rest)
unfolding parse_conversion_specification parse_precision
parse-width_precision k j width precision rest low high small high' small' other =
    let behind = b'.' ∷ decimal (suc j) precision rest in
    rw
      (
        parse_flags-stop no_flags (decimal (suc k) width behind)
            (decimal-nonzero k width behind low high),
        number_or-decimal 0 k width behind high small refl,
        number_or-decimal unspecified_precision j precision rest high' small' other,
      )
      refl
