-- ===== src/Output.antt =====
-- The output buffer as the formatting code uses it: `reserve` room, fill it, `commit` it.
-- reckless/include/reckless/output_buffer.hpp implements the interface.
pub mod Appends
use reckless.Prelude.{ℕ, ◌+◌, ◌≤◌, ◌≡◌, List, ◌++◌, length}

-- What a call of the formatting code ends in. `threw` carries the state that the exception leaves
-- behind; `blocked` is a call that does not return.
pub data Outcome {ℓ} (E S : Type 0) (A : Type ℓ) : Type ℓ where
  done : A → S → Outcome E S A
  threw : E → S → Outcome E S A
  blocked : S → Outcome E S A

infixl 5 ◌>>=◌ ◌>>◌
abbrev pub ◌>>=◌ {ℓ κ} :
    {E S : Type 0} {A : Type ℓ} {B : Type κ}
    → (S → Outcome E S A)
    → (A → S → Outcome E S B)
    → S
    → Outcome E S B
◌>>=◌ m f s = elim (m s) [ done a s' ↦ f a s' | threw e s' ↦ threw e s' | blocked s' ↦ blocked s' ]

abbrev pub ◌>>◌ {ℓ} :
    {E S : Type 0} {B : Type ℓ}
    → (S → Outcome E S (Unit {0}))
    → (S → Outcome E S B)
    → S
    → Outcome E S B
m >> k = m >>= λ _. k

abbrev pub return {ℓ} : {E S : Type 0} {A : Type ℓ} → A → S → Outcome E S A
return a s = done a s

-- `text` is all that was committed, whether it has left the buffer or not; `region` is the
-- memory behind the pointer that `reserve` returned, and `commit` is handed what is in it then.
pub record Buffer : Type 1 where
  pub State : Type 0
  pub Error : Type 0
  pub text : State → List ℕ
  pub space : State → ℕ
  pub reserve : ℕ → State → Outcome Error State (Unit {0})
  pub region : ℕ → State → List ℕ
  pub commit : List ℕ → State → State
  pub reserve_done : (n : ℕ) (s : State) {s' : State} → reserve n s ≡ done tt s' → text s' ≡ text s
  pub reserve_threw :
      (n : ℕ) (s : State) {e : Error} {s' : State} → reserve n s ≡ threw e s' → text s' ≡ text s
  pub reserve_blocked :
      (n : ℕ) (s : State) {s' : State} → reserve n s ≡ blocked s' → text s' ≡ text s
  pub reserve_fits : (n : ℕ) (s : State) → n ≤ space s → reserve n s ≡ done tt s
  pub length-region :
      (n : ℕ) (s : State) {s' : State} → reserve n s ≡ done tt s' → length (region n s') ≡ n
  pub text-commit :
      (n : ℕ) (bytes : List ℕ) (s : State) {s' : State}
      → reserve n s ≡ done tt s'
      → length bytes ≤ n
      → text (commit bytes s') ≡ text s' ++ bytes
  pub space-commit :
      (n : ℕ) (bytes : List ℕ) (s : State)
      → n ≤ space s
      → length bytes ≡ n
      → space (commit bytes s) + n ≡ space s

module _ (b : Buffer) where
  -- `char* p = pbuffer->reserve(n); …; pbuffer->commit(n);`, where `fill` is the code between.
  unfoldable pub emit : ℕ → (List ℕ → List ℕ) → b.State → Outcome b.Error b.State (Unit {0})
  emit n fill = do b.reserve n; λ s. done tt (b.commit (fill (b.region n s)) s)
