-- ===== src/Ntoa/Digits/Zeroes.antt =====
-- Zeroes around the decimal digits that reckless/src/ntoa.cpp writes.
use native.Mathlib.Nat.{pow-suc}
use reckless.Prelude.{
  ℕ, zero, suc, ◌+◌, ◌*◌, ◌/◌, ◌%◌, ◌<◌, ◌^◌, ◌≡◌, refl, List, ◌∷◌, ◌++◌, arith, replicate, ap, ◌∙◌,
}
use reckless.Ntoa.Digits.Base10.{decimal}

replicate_snoc :
    (n c : ℕ) (rest : List ℕ) → replicate n c ++ (c ∷ rest) ≡ c ∷ (replicate n c ++ rest)
replicate_snoc zero c rest = refl
replicate_snoc (suc n) c rest = ap (λ r. c ∷ r) (replicate_snoc n c rest)

decimal_shift :
    (k n n' : ℕ) (rest : List ℕ) → n ≡ n' * 10 → decimal (suc k) n rest ≡ decimal k n' (b'0' ∷ rest)
unfolding decimal
decimal_shift k n n' rest e =
    let e1 : n / 10 ≡ n' = omega arith in let e2 : n % 10 ≡ 0 = omega arith in rw (e1, e2) refl

-- A multiple of a power of ten ends in zeroes.
pub decimal-zeroes :
    (s d m : ℕ) (rest : List ℕ)
    → decimal (s + d) (m * 10 ^ s) rest ≡ decimal d m (replicate s b'0' ++ rest)
decimal-zeroes zero d m rest =
    let e : 0 + d ≡ d = omega arith in let e' : m * 10 ^ 0 ≡ m = omega arith in rw (e, e') refl
decimal-zeroes (suc s) d m rest =
    let e : suc s + d ≡ suc (s + d) = omega arith in
    let e' : m * 10 ^ suc s ≡ m * 10 ^ s * 10 = ap (λ t. m * t) (pow-suc 10 s) ∙ grind arith in
    rw e (decimal_shift (s + d) (m * 10 ^ suc s) (m * 10 ^ s) rest e')
    ∙ decimal-zeroes s d m (b'0' ∷ rest)
    ∙ ap (decimal d m) (replicate_snoc s b'0' rest)

-- Zero has zeroes for digits.
pub decimal-zero : (k : ℕ) (rest : List ℕ) → decimal k 0 rest ≡ replicate k b'0' ++ rest
unfolding decimal
decimal-zero zero rest = refl
decimal-zero (suc k) rest = decimal-zero k (b'0' ∷ rest) ∙ replicate_snoc k b'0' rest

-- A number of fewer digits has zeroes in front.
pub decimal_leading :
    (d z m : ℕ) (rest : List ℕ)
    → m < 10 ^ d
    → decimal (d + z) m rest ≡ replicate z b'0' ++ decimal d m rest
unfolding decimal
decimal_leading zero z m rest h =
    let e : 0 + z ≡ z = omega arith in
    let e' : m ≡ 0 = omega arith in rw (e, e') (decimal-zero z rest)
decimal_leading (suc d) z m rest h =
    let e : suc d + z ≡ suc (d + z) = omega arith in
    let h' = rw pow-suc at h in
    rw e (decimal_leading d z (m / 10) ((b'0' + m % 10) ∷ rest) (omega arith))
