-- ===== src/Ntoa/Digits/Base10.antt =====
-- The decimal digits that reckless/src/ntoa.cpp writes are those of the number.
use native.Mathlib.Nat.{div-div-eq-div-mul, pow-suc, one-le-pow}
use reckless.Prelude.{
  ℕ, zero, suc, ◌+◌, ◌-◌, ◌*◌, ◌/◌, ◌%◌, ◌≤◌, ◌<◌, ◌^◌, ◌≡◌, refl, List, [], ◌∷◌, ◌++◌, arith,
  sub32, length, true, ltb, leb, ◌==◌, ==_iff, false, lt→ltb, leb→le, inl, inr, Bool-cases, get_or,
  each_below, each_below_lem, drop, ◌∙◌, ap,
}
use reckless.Ntoa.Cursor.{Cursor, Holds, put-Holds}
use reckless.Ntoa.Digits.{
  decimal_digits, pair, pairs, first_digits, utoa_base10, odd_digit, digit_pairs, utoa_digits,
}

-- The last `k` decimal digits of `n`, in front of `rest`.
unfoldable pub decimal : ℕ → ℕ → List ℕ → List ℕ
decimal zero n rest = rest
decimal (suc k) n rest = decimal k (n / 10) ((b'0' + n % 10) ∷ rest)

-- `value` has `k` digits, and no leading zero.
pub record HasDigits (k value : ℕ) : Type 0 where
  pub below : value < 10 ^ k
  pub above : 10 ^ k ≤ 10 * value

pair_table :
    (v : ℕ)
    → v < 100
    → (get_or decimal_digits (2 * v) 0 ≡ b'0' + v / 10)
      × (get_or decimal_digits (2 * v + 1) 0 ≡ b'0' + v % 10)
unfolding each_below
pair_table v h = (
  (==_iff _ _).0
      (each_below_lem 100 (λ v. get_or decimal_digits (2 * v) 0 == b'0' + v / 10) v h refl),
  (==_iff _ _).0
      (each_below_lem 100 (λ v. get_or decimal_digits (2 * v + 1) 0 == b'0' + v % 10) v h refl),
)

pair-Holds :
    (size room value : ℕ) (rest : List ℕ) (cur : Cursor)
    → value < 100
    → Holds size (suc (suc room)) rest cur
    → Holds size room ((b'0' + value / 10) ∷ (b'0' + value % 10) ∷ rest) (pair value cur)
unfolding pair
pair-Holds size room value rest cur h holds =
    let (e1, e2) = pair_table value h in
    rw (e1, e2) (put-Holds size room _ _ _ (put-Holds size (suc room) _ _ _ holds))

-- Two digits at once are two steps of one digit.
decimal_pair :
    (k n : ℕ) (rest : List ℕ)
    → decimal (suc (suc k)) n rest
      ≡ decimal k (n / 100) ((b'0' + n % 100 / 10) ∷ (b'0' + n % 100 % 10) ∷ rest)
unfolding decimal
decimal_pair k n rest =
    let e1 : n % 100 % 10 ≡ n % 10 = omega arith in
    let e2 : n % 100 / 10 ≡ n / 10 % 10 = omega arith in
    let e3 : n / 100 ≡ n / 10 / 10 = omega arith in rw (e1, e2, e3)

not_ltb : (a b : ℕ) → b ≤ a → ltb a b ≡ false
not_ltb a b h = ground arith

first_digits-Holds :
    (k size room value : ℕ) (rest : List ℕ) (cur : Cursor)
    → value < 100
    → 0 < value
    → HasDigits k value
    → Holds size (room + k) rest cur
    → Holds size room (decimal k value rest) (first_digits cur value)
unfolding first_digits decimal
first_digits-Holds zero size room value rest cur h pos d holds = absurd (omega (arith, d.below))
first_digits-Holds (suc zero) size room value rest cur h pos d holds =
    let holds' = let e : room + 1 ≡ suc room = omega arith in rw e at holds in
    let e : value % 10 ≡ value = omega (arith, d.below) in
    rw (lt→ltb value 10 d.below, e) (put-Holds size room _ _ _ holds')
first_digits-Holds (suc (suc zero)) size room value rest cur h pos d holds =
    let holds' = let e : room + 2 ≡ suc (suc room) = omega arith in rw e at holds in
    let e : value / 10 % 10 ≡ value / 10 = omega arith in
    let big : ltb value 10 ≡ false = not_ltb value 10 (omega (arith, d.above)) in
    rw (big, e) (pair-Holds size room value rest cur h holds')
first_digits-Holds (suc (suc (suc k))) size room value rest cur h pos d holds = absurd (
    grind
      (arith, d.above, one-le-pow k 10, pow-suc 10 k, pow-suc 10 (suc k), pow-suc 10 (suc (suc k))))

-- A number of three digits or more has two fewer once it is divided by 100.
shorten :
    (k value : ℕ)
    → 100 ≤ value
    → HasDigits k value
    → (j : ℕ) × (k ≡ suc (suc j)) × HasDigits j (value / 100)
shorten zero value h d = absurd (omega (arith, d.below))
shorten (suc zero) value h d = absurd (omega (arith, d.below))
shorten (suc (suc zero)) value h d = absurd (omega (arith, d.below))
shorten (suc (suc (suc j))) value h d =
    let below = rw (pow-suc, pow-suc, pow-suc) at d.below in
    let above = rw (pow-suc, pow-suc, pow-suc) at d.above in
    (suc j, refl, record { below = rw pow-suc (omega arith); above = rw pow-suc (omega arith) })

pos→ne : (n : ℕ) → 0 < n → (n == 0) ≡ false
pos→ne n h = ground arith

pairs-Holds :
    (fuel k size room value : ℕ) (rest : List ℕ) (cur : Cursor)
    → value ≤ fuel
    → 0 < value
    → HasDigits k value
    → Holds size (room + k) rest cur
    → let (cur', value') = pairs fuel cur value in
      Holds size room (decimal k value rest) (first_digits cur' value')
unfolding pairs
pairs-Holds zero k size room value rest cur h pos d holds = absurd (omega arith)
pairs-Holds (suc fuel) k size room value rest cur h pos d holds =
    elim (Bool-cases (leb 100 value)) [
      | inl big ↦
          let (j, e, d') = shorten k value (leb→le 100 value big) d in
          let holds' =
            let e' : room + k ≡ suc (suc (room + j)) = omega (arith, e) in rw e' at holds in
          rw (big, e, decimal_pair j value rest)
            (pairs-Holds fuel j size room (value / 100) _ (pair (value % 100) cur) (omega arith)
              (omega (arith, leb→le 100 value big)) d'
              (pair-Holds size (room + j) (value % 100) rest cur (omega arith) holds'))
      | inr small ↦
          rw small (first_digits-Holds k size room value rest cur (ground arith) pos d holds)
    ]

-- For a positive value of `k` digits, and memory with room for them before the place: the `k`
-- decimal digits of the value are written in front of what stands there, and the place moves by
-- `k`.
pub utoa_base10-Holds :
    (k size room value : ℕ) (rest : List ℕ) (cur : Cursor)
    → HasDigits k value
    → 0 < value
    → Holds size (room + k) rest cur
    → Holds size room (decimal k value rest) (utoa_base10 cur value)
unfolding utoa_base10
utoa_base10-Holds k size room value rest cur d pos holds =
    rw (pos→ne value pos) (pairs-Holds value k size room value rest cur (omega arith) pos d holds)

pub utoa_base10-zero : (cur : Cursor) → utoa_base10 cur 0 ≡ cur
unfolding utoa_base10
utoa_base10-zero cur = refl

-- What the variant for a given number of digits leaves behind.
record Wrote (size room value digits : ℕ) (rest : List ℕ) (out : List ℕ × ℕ) : Type 0 where
  whole : length out.0 ≡ size
  tail : drop room out.0 ≡ decimal digits value rest
  left : out.1 ≡ value / 10 ^ digits

odd_digit-Wrote :
    (size room value digits : ℕ) (rest : List ℕ) (cur : Cursor)
    → digits < 2
    → Holds size (room + digits) rest cur
    → Wrote size room value digits rest (odd_digit (cur, value, digits))
unfolding odd_digit decimal
odd_digit-Wrote size room value zero rest cur h holds =
    let e : room + 0 ≡ room = omega arith in
    record { whole = holds.whole; tail = rw e at holds.tail; left = omega arith }
odd_digit-Wrote size room value (suc zero) rest cur h holds =
    let e : room + 1 ≡ suc room = omega arith in
    let done = put-Holds size room (b'0' + value % 10) rest cur (rw e at holds) in
    record { whole = done.whole; tail = done.tail; left = omega arith }
odd_digit-Wrote size room value (suc (suc k)) rest cur h holds = absurd (omega arith)

digit_pairs-Wrote :
    (fuel size room value digits : ℕ) (rest : List ℕ) (cur : Cursor)
    → digits ≤ fuel
    → Holds size (room + digits) rest cur
    → Wrote size room value digits rest (odd_digit (digit_pairs fuel cur value digits))
unfolding digit_pairs
digit_pairs-Wrote zero size room value digits rest cur h holds =
    odd_digit-Wrote size room value digits rest cur (omega arith) holds
digit_pairs-Wrote (suc fuel) size room value zero rest cur h holds =
    odd_digit-Wrote size room value 0 rest cur (omega arith) holds
digit_pairs-Wrote (suc fuel) size room value (suc zero) rest cur h holds =
    odd_digit-Wrote size room value 1 rest cur (omega arith) holds
digit_pairs-Wrote (suc fuel) size room value (suc (suc k)) rest cur h holds =
    let holds' =
      let e' : room + suc (suc k) ≡ suc (suc (room + k)) = omega arith in rw e' at holds in
    let e : suc (suc k) - 2 ≡ k = omega arith in
    let big : leb 2 (suc (suc k)) ≡ true = ground arith in
    let next =
      digit_pairs-Wrote fuel size room (value / 100) k _ (pair (value % 100) cur) (omega arith)
        (pair-Holds size (room + k) (value % 100) rest cur (omega arith) holds') in
    rw (big, e)
      (record {
        whole = next.whole;
        tail = rw (decimal_pair k value rest) next.tail;
        left =
            next.left
            ∙ div-div-eq-div-mul value 100 (10 ^ k)
            ∙ ap (λ t. value / t) (rw (pow-suc, pow-suc) (omega arith));
      })

-- For memory with room for `digits` characters before the place: exactly the last `digits` decimal
-- digits of the value are written in front of what stands there, and the result is the value
-- without them.
pub utoa_digits-Holds :
    (size room value digits : ℕ) (rest : List ℕ) (cur : Cursor)
    → Holds size (room + digits) rest cur
    → let (str, left) = utoa_digits cur value digits in
      Holds size room (decimal digits value rest) (record { str = str; pos = sub32 cur.pos digits })
      × (left ≡ value / 10 ^ digits)
unfolding utoa_digits
utoa_digits-Holds size room value digits rest cur holds =
    let w = digit_pairs-Wrote digits size room value digits rest cur (omega arith) holds in
    (
      record {
        small = holds.small;
        inside = omega (arith, holds.inside);
        whole = w.whole;
        place = omega (arith, holds.place, holds.small, holds.inside);
        tail = w.tail;
      },
      w.left,
    )

pub length-decimal : (k n : ℕ) (rest : List ℕ) → length (decimal k n rest) ≡ k + length rest
unfolding decimal
length-decimal zero n rest = omega arith
length-decimal (suc k) n rest = omega (arith, length-decimal k (n / 10) ((b'0' + n % 10) ∷ rest))

pub decimal-append : (k n : ℕ) (xs ys : List ℕ) → decimal k n xs ++ ys ≡ decimal k n (xs ++ ys)
unfolding decimal
decimal-append zero n xs ys = refl
decimal-append (suc k) n xs ys = decimal-append k (n / 10) ((b'0' + n % 10) ∷ xs) ys

-- The number that decimal digits spell behind `acc`.
pub read_decimal : ℕ → List ℕ → ℕ
read_decimal acc [] = acc
read_decimal acc (c ∷ s) = read_decimal (10 * acc + (c - b'0')) s

read_decimal-decimal :
    (k n acc : ℕ) (rest : List ℕ)
    → n < 10 ^ k
    → read_decimal acc (decimal k n rest) ≡ read_decimal (acc * 10 ^ k + n) rest
unfolding decimal read_decimal
read_decimal-decimal zero n acc rest h = ap (λ t. read_decimal t rest) (omega arith)
read_decimal-decimal (suc k) n acc rest h =
    let h' = rw pow-suc at h in
    read_decimal-decimal k (n / 10) acc ((b'0' + n % 10) ∷ rest) (omega arith)
    ∙ ap (λ t. read_decimal t rest) (rw pow-suc (omega arith))

-- Reading the digits of a number gives the number back.
pub read-decimal : (k n : ℕ) → n < 10 ^ k → read_decimal 0 (decimal k n []) ≡ n
unfolding read_decimal
read-decimal k n h = read_decimal-decimal k n 0 [] h ∙ omega arith
