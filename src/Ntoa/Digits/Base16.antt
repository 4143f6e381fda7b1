-- ===== src/Ntoa/Digits/Base16.antt =====
-- The hexadecimal digits that reckless/src/ntoa.cpp writes are those of the number.
use native.Mathlib.Nat.{pow-suc, one-le-pow}
use reckless.Prelude.{
  ℕ, zero, suc, ◌+◌, ◌*◌, ◌/◌, ◌%◌, ◌≤◌, ◌<◌, ◌^◌, ◌≡◌, refl, List, ◌∷◌, ◌++◌, arith, length, Bool,
  false, ◌==◌,
}
use reckless.Ntoa.Cursor.{Cursor, Holds, put-Holds}
use reckless.Ntoa.Digits.{hex_digit, hex_digits, utoa_base16}

-- The last `k` hexadecimal digits of `n`, in front of `rest`.
unfoldable pub hexadecimal : Bool → ℕ → ℕ → List ℕ → List ℕ
hexadecimal uppercase zero n rest = rest
hexadecimal uppercase (suc k) n rest =
    hexadecimal uppercase k (n / 16) (hex_digit uppercase (n % 16) ∷ rest)

pub length-hexadecimal :
    (u : Bool) (k n : ℕ) (rest : List ℕ) → length (hexadecimal u k n rest) ≡ k + length rest
unfolding hexadecimal
length-hexadecimal u zero n rest = omega arith
length-hexadecimal u (suc k) n rest =
    omega (arith, length-hexadecimal u k (n / 16) (hex_digit u (n % 16) ∷ rest))

pub hexadecimal-append :
    (u : Bool) (k n : ℕ) (xs ys : List ℕ)
    → hexadecimal u k n xs ++ ys ≡ hexadecimal u k n (xs ++ ys)
unfolding hexadecimal
hexadecimal-append u zero n xs ys = refl
hexadecimal-append u (suc k) n xs ys =
    hexadecimal-append u k (n / 16) (hex_digit u (n % 16) ∷ xs) ys

-- `value` has `k` digits, and no leading zero; zero has none.
pub record HasDigits (k value : ℕ) : Type 0 where
  pub below : value < 16 ^ k
  pub above : 16 ^ k ≤ 16 * value + 1

shorten :
    (k value : ℕ) → 0 < value → HasDigits k value → (j : ℕ) × (k ≡ suc j) × HasDigits j (value / 16)
shorten zero value h d = absurd (omega (arith, d.below))
shorten (suc zero) value h d =
    (0, refl, record { below = omega (arith, d.below); above = omega arith })
shorten (suc (suc j)) value h d =
    let below = rw (pow-suc, pow-suc) at d.below in
    let above = rw (pow-suc, pow-suc) at d.above in
    (suc j, refl, record { below = rw pow-suc (omega arith); above = rw pow-suc (omega arith) })

HasDigits-zero : (k : ℕ) → HasDigits k 0 → k ≡ 0
HasDigits-zero zero d = refl
HasDigits-zero (suc k) d = absurd (grind (arith, d.above, pow-suc 16 k, one-le-pow k 16))

pos→ne : (n : ℕ) → 0 < n → (n == 0) ≡ false
pos→ne n h = ground arith

hex_digits-zero : (fuel : ℕ) (u : Bool) (cur : Cursor) → hex_digits fuel u cur 0 ≡ cur
unfolding hex_digits
hex_digits-zero zero u cur = refl
hex_digits-zero (suc fuel) u cur = refl

hex_digits-Holds :
    (fuel k size room value : ℕ) (u : Bool) (rest : List ℕ) (cur : Cursor)
    → value ≤ fuel
    → HasDigits k value
    → Holds size (room + k) rest cur
    → Holds size room (hexadecimal u k value rest) (hex_digits fuel u cur value)
unfolding hex_digits hexadecimal
hex_digits-Holds fuel k size room zero u rest cur h d holds =
    let holds' = let e : room + k ≡ room = omega (arith, HasDigits-zero k d) in rw e at holds in
    rw (hex_digits-zero, HasDigits-zero k d) holds'
hex_digits-Holds zero k size room (suc v) u rest cur h d holds = absurd (omega arith)
hex_digits-Holds (suc fuel) k size room (suc v) u rest cur h d holds =
    let (j, e, d') = shorten k (suc v) (omega arith) d in
    let holds' = let e' : room + k ≡ suc (room + j) = omega (arith, e) in rw e' at holds in
    rw (pos→ne (suc v) (omega arith), e)
      (hex_digits-Holds fuel j size room (suc v / 16) u _ _ (omega arith) d'
        (put-Holds size (room + j) (hex_digit u (suc v % 16)) rest cur holds'))

-- For a value of `k` hexadecimal digits, none for zero, and memory with room for them before the
-- place: the digits are written in front of what stands there, and the place moves by `k`.
pub utoa_base16-Holds :
    (k size room value : ℕ) (u : Bool) (rest : List ℕ) (cur : Cursor)
    → HasDigits k value
    → Holds size (room + k) rest cur
    → Holds size room (hexadecimal u k value rest) (utoa_base16 u cur value)
unfolding utoa_base16
utoa_base16-Holds k size room value u rest cur d holds =
    hex_digits-Holds value k size room value u rest cur (omega arith) d holds
