-- ===== src/Ntoa/Digits.antt =====
-- reckless/src/ntoa.cpp: the digits of an unsigned number, written from the last to the first.
pub mod Base10
pub mod Base16
pub mod Zeroes
use reckless.Prelude.{
  ℕ, zero, suc, ◌+◌, ◌-◌, ◌*◌, ◌/◌, ◌%◌, ◌≤◌, ◌<◌, ◌^◌, ◌≡◌, refl, List, ◌++◌, arith, sub32, length,
  Bool, codes, ltb, leb, ◌==◌, if◌then◌else◌, get_or,
}
use reckless.Ntoa.Cursor.{Cursor, put}

abbrev pub decimal_digits : List ℕ
decimal_digits =
    codes "00010203040506070809101112131415161718192021222324252627282930313233343536373839"
    ++ codes
        "404142434445464748495051525354555657585960616263646566676869707172737475767778798081828384858687888990919293949596979899"

-- The two digits of `value`, which is below 100, from the table.
pub pair : ℕ → Cursor → Cursor
pair value cur =
    let offset = 2 * value in
    put (get_or decimal_digits offset 0) (put (get_or decimal_digits (offset + 1) 0) cur)

-- `while(value >= 100)`: two digits a round. `value` rounds are enough.
pub pairs : ℕ → Cursor → ℕ → Cursor × ℕ
pairs zero cur value = (cur, value)
pairs (suc fuel) cur value =
    let rest = pairs fuel (pair (value % 100) cur) (value / 100) in
    if leb 100 value then rest else (cur, value)

-- The one or two digits that are left.
pub first_digits : Cursor → ℕ → Cursor
first_digits cur value = if ltb value 10 then put (b'0' + value) cur else pair value cur

-- `utoa_generic_base10_preallocated(str, pos, value)`; the cursor is `str` and the result.
pub utoa_base10 : Cursor → ℕ → Cursor
utoa_base10 cur value =
    if value == 0
    then cur
    else (let (cur', value') = pairs value cur value in first_digits cur' value')

-- `while(digits >= 2)` of the variant that writes a given number of digits.
pub digit_pairs : ℕ → Cursor → ℕ → ℕ → Cursor × ℕ × ℕ
digit_pairs zero cur value digits = (cur, value, digits)
digit_pairs (suc fuel) cur value digits =
    let rest = digit_pairs fuel (pair (value % 100) cur) (value / 100) (digits - 2) in
    if leb 2 digits then rest else (cur, value, digits)

-- The last digit of an odd number of them.
pub odd_digit : Cursor × ℕ × ℕ → List ℕ × ℕ
odd_digit (cur, value, digits) =
    if digits == 1 then ((put (b'0' + value % 10) cur).str, value / 10) else (cur.str, value)

-- `utoa_generic_base10_preallocated(str, pos, value, digits)`: the memory afterwards, and the
-- digits of `value` that were not written. The caller's `pos` does not move.
pub utoa_digits : Cursor → ℕ → ℕ → List ℕ × ℕ
utoa_digits cur value digits = odd_digit (digit_pairs digits cur value digits)

abbrev pub hex_digit : Bool → ℕ → ℕ
hex_digit uppercase v =
    let hexdigit_offset = (if uppercase then b'A' else b'a') - 10 in
    v + (if ltb v 10 then b'0' else hexdigit_offset)

-- `while(value)` of `utoa_generic_base16_preallocated`: one digit a round.
pub hex_digits : ℕ → Bool → Cursor → ℕ → Cursor
hex_digits zero uppercase cur value = cur
hex_digits (suc fuel) uppercase cur value =
    let rest =
      hex_digits fuel uppercase (put (hex_digit uppercase (value % 16)) cur) (value / 16) in
    if value == 0 then cur else rest

-- `utoa_generic_base16_preallocated`; `value` rounds are enough.
pub utoa_base16 : Bool → Cursor → ℕ → Cursor
utoa_base16 uppercase cur value = hex_digits value uppercase cur value
