-- ===== src/Prelude/Words.antt =====
-- Machine words as native numbers, characters, and checks of a small range by evaluation.
use Prim.Native.Nat.{ℕ, zero, suc, ◌+◌, ◌-◌, ◌*◌, ◌%◌, ◌^◌, ◌<◌}
use Prim.Native.Char.{code}
use Prim.Native.String.{String}
use mathlib.Core.Path.{◌≡◌}
use mathlib.Core.Bool.{Bool, true, ◌&&◌}
use mathlib.Core.List.{List, [], ◌∷◌}
use native.Mathlib.Nat.{zero-add, suc-add, pow-zero, pow-suc}
use native.Mathlib.Omega.{arith}

-- The characters of a C string: its code points, which are its bytes when it is ASCII.
abbrev pub codes : String → List ℕ
codes String.[] = []
codes (String.◌∷◌ c s) = code c ∷ codes s

-- `unsigned` addition and subtraction.
abbrev pub add32 : ℕ → ℕ → ℕ
add32 a b = (a + b) % 2 ^ 32

abbrev pub sub32 : ℕ → ℕ → ℕ
sub32 a b = (a + 2 ^ 32 - b) % 2 ^ 32

-- `std::uint64_t` addition.
abbrev pub add64 : ℕ → ℕ → ℕ
add64 a b = (a + b) % 2 ^ 64

unfoldable pub each_below : ℕ → (ℕ → Bool) → Bool
each_below zero test = true
each_below (suc top) test = each_below top test && test top

pub each_below_lem :
    (size : ℕ) (test : ℕ → Bool) (i : ℕ) → i < size → each_below size test ≡ true → test i ≡ true
unfolding each_below
each_below_lem zero test i below passed = absurd (omega arith)
each_below_lem (suc top) test i below passed = ground (arith, each_below_lem top test i)

pub pow-add : (b m n : ℕ) → b ^ (m + n) ≡ b ^ m * b ^ n
pow-add b zero n = rw (zero-add, pow-zero) (omega arith)
pow-add b (suc m) n = rw (suc-add, pow-suc, pow-suc b m, pow-add b m n) (grind arith)
