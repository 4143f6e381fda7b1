-- ===== src/Output/Appends.antt =====
-- What a call of the formatting code does to the output: the postcondition and its rules.
use reckless.Prelude.{
  ℕ, ◌≡◌, ◌≤◌, arith, refl, List, [], ◌++◌, append-nil, append_assoc, length, sym, ◌∙◌,
}
use reckless.Output.{return, Outcome, done, threw, blocked, Buffer, ◌>>=◌, ◌>>◌, emit}

module _ (b : Buffer) where
  -- A call that failed has written the first part of its output, and nothing else.
  abbrev pub Part : List ℕ → b.State → b.State → Type 0
  Part bytes s s' =
      (first rest : List ℕ) × (bytes ≡ first ++ rest) × (b.text s' ≡ b.text s ++ first)

  -- A call that returned has written `bytes` behind what was there.
  abbrev pub Appends {ℓ} : {A : Type ℓ} → List ℕ → b.State → Outcome b.Error b.State A → Type 0
  Appends bytes s (done a s') = b.text s' ≡ b.text s ++ bytes
  Appends bytes s (threw e s') = Part bytes s s'
  Appends bytes s (blocked s') = Part bytes s s'

  -- The same, where the result of the call is `v`.
  abbrev pub Yields : {A : Type 0} → List ℕ → A → b.State → Outcome b.Error b.State A → Type 0
  Yields bytes v s (done a s') = (a ≡ v) × (b.text s' ≡ b.text s ++ bytes)
  Yields bytes v s (threw e s') = Part bytes s s'
  Yields bytes v s (blocked s') = Part bytes s s'

  -- Output behind `xs` is output behind what stood before `xs`.
  shift {ℓ} :
      {A : Type ℓ} (xs ys : List ℕ) (s s' : b.State) (o : Outcome b.Error b.State A)
      → b.text s' ≡ b.text s ++ xs
      → Appends ys s' o
      → Appends (xs ++ ys) s o
  shift xs ys s s' (done a t) e p = p ∙ rw e (append_assoc (b.text s) xs ys)
  shift xs ys s s' (threw x t) e (first, rest, e', p) =
      (xs ++ first, rest, rw (e', append_assoc), p ∙ rw e (append_assoc (b.text s) xs first))
  shift xs ys s s' (blocked t) e (first, rest, e', p) =
      (xs ++ first, rest, rw (e', append_assoc), p ∙ rw e (append_assoc (b.text s) xs first))

  Part-nil : (bytes : List ℕ) {s s' : b.State} → b.text s' ≡ b.text s → Part bytes s s'
  Part-nil bytes {s} h = ([], bytes, refl, h ∙ sym (append-nil (b.text s)))

  emit_from :
      (n : ℕ) (fill : List ℕ → List ℕ) (bytes : List ℕ) (s : b.State)
      → ((mem : List ℕ) → length mem ≡ n → fill mem ≡ bytes)
      → length bytes ≤ n
      → (o : Outcome b.Error b.State (Unit {0})) → b.reserve n s ≡ o
      → Appends {0} {A = Unit {0}} bytes s (elim o [
        | done a s' ↦ done tt (b.commit (fill (b.region n s')) s')
        | threw e s' ↦ threw e s'
        | blocked s' ↦ blocked s'
      ])
  emit_from n fill bytes s h l (done tt s') e =
      let m = h (b.region n s') (b.length-region n s e) in
      b.text-commit n (fill (b.region n s')) s e (rw m l) ∙ rw (m, b.reserve_done n s e)
  emit_from n fill bytes s h l (threw x s') e = Part-nil bytes (b.reserve_threw n s e)
  emit_from n fill bytes s h l (blocked s') e = Part-nil bytes (b.reserve_blocked n s e)

  -- Filling a first part of the reserved region with `bytes` and committing it appends `bytes`.
  pub emit_part-Appends :
      (n : ℕ) (fill : List ℕ → List ℕ) (bytes : List ℕ) (s : b.State)
      → ((mem : List ℕ) → length mem ≡ n → fill mem ≡ bytes)
      → length bytes ≤ n
      → Appends bytes s (emit b n fill s)
  unfolding emit
  emit_part-Appends n fill bytes s h l = emit_from n fill bytes s h l (b.reserve n s) refl

  -- Filling the reserved region with `bytes`, whatever was in it, appends `bytes`.
  pub emit-Appends :
      (n : ℕ) (fill : List ℕ → List ℕ) (bytes : List ℕ) (s : b.State)
      → ((mem : List ℕ) → length mem ≡ n → fill mem ≡ bytes)
      → length bytes ≡ n
      → Appends bytes s (emit b n fill s)
  emit-Appends n fill bytes s h l = emit_part-Appends n fill bytes s h (omega (arith, l))

  bind_from {ℓ κ} :
      {A : Type ℓ} {B : Type κ} (xs ys : List ℕ) (s : b.State)
      (f : A → b.State → Outcome b.Error b.State B)
      → ((a : A) (s' : b.State) → Appends ys s' (f a s'))
      → (o : Outcome b.Error b.State A) → Appends xs s o
      → Appends
          (xs ++ ys)
          s
          (elim o [ done a s' ↦ f a s' | threw e s' ↦ threw e s' | blocked s' ↦ blocked s' ])
  bind_from xs ys s f h (done a s') p = shift xs ys s s' (f a s') p (h a s')
  bind_from xs ys s f h (threw x s') (first, rest, e, p) =
      (first, rest ++ ys, rw (e, append_assoc), p)
  bind_from xs ys s f h (blocked s') (first, rest, e, p) =
      (first, rest ++ ys, rw (e, append_assoc), p)

  -- Two calls in a row write one behind the other.
  pub bind-Appends {ℓ κ} :
      {A : Type ℓ} {B : Type κ} (xs ys : List ℕ) (s : b.State)
      (m : b.State → Outcome b.Error b.State A) (f : A → b.State → Outcome b.Error b.State B)
      → Appends xs s (m s)
      → ((a : A) (s' : b.State) → Appends ys s' (f a s'))
      → Appends (xs ++ ys) s ((m >>= f) s)
  bind-Appends xs ys s m f p h = bind_from xs ys s f h (m s) p

  pub then-Appends :
      (m k : b.State → Outcome b.Error b.State (Unit {0})) (xs ys : List ℕ)
      → ((s : b.State) → Appends xs s (m s))
      → ((s : b.State) → Appends ys s (k s))
      → (s : b.State) → Appends (xs ++ ys) s ((m >> k) s)
  then-Appends m k xs ys h h' s = bind-Appends xs ys s m (λ a. k) (h s) (λ a t. h' t)

  yield_from :
      {A B : Type 0} (xs ys : List ℕ) (w : B) (s : b.State)
      (f : A → b.State → Outcome b.Error b.State B)
      → ((a : A) (s' : b.State) → Yields ys w s' (f a s'))
      → (o : Outcome b.Error b.State A) → Appends xs s o
      → Yields
          (xs ++ ys)
          w
          s
          (elim o [ done a s' ↦ f a s' | threw e s' ↦ threw e s' | blocked s' ↦ blocked s' ])
  yield_from xs ys w s f h (done a s') p = behind (f a s') (h a s')
    where
      behind : (o : Outcome b.Error b.State _) → Yields ys w s' o → Yields (xs ++ ys) w s o
      behind (done c t) (e, q) = (e, q ∙ rw p (append_assoc (b.text s) xs ys))
      behind (threw x t) (first, rest, e', q) =
          (xs ++ first, rest, rw (e', append_assoc), q ∙ rw p (append_assoc (b.text s) xs first))
      behind (blocked t) (first, rest, e', q) =
          (xs ++ first, rest, rw (e', append_assoc), q ∙ rw p (append_assoc (b.text s) xs first))
  yield_from xs ys w s f h (threw x s') (first, rest, e, p) =
      (first, rest ++ ys, rw (e, append_assoc), p)
  yield_from xs ys w s f h (blocked s') (first, rest, e, p) =
      (first, rest ++ ys, rw (e, append_assoc), p)

  pub bind-Yields :
      {A B : Type 0} (xs ys : List ℕ) (w : B) (s : b.State)
      (m : b.State → Outcome b.Error b.State A) (f : A → b.State → Outcome b.Error b.State B)
      → Appends xs s (m s)
      → ((a : A) (s' : b.State) → Yields ys w s' (f a s'))
      → Yields (xs ++ ys) w s ((m >>= f) s)
  bind-Yields xs ys w s m f p h = yield_from xs ys w s f h (m s) p

  pub return-Yields : {A : Type 0} (v : A) (s : b.State) → Yields [] v s (return v s)
  return-Yields v s = (refl, sym (append-nil (b.text s)))

  use_from :
      {A B : Type 0} (xs ys : List ℕ) (v : A) (s : b.State)
      (f : A → b.State → Outcome b.Error b.State B)
      → ((s' : b.State) → Appends ys s' (f v s'))
      → (o : Outcome b.Error b.State A) → Yields xs v s o
      → Appends
          (xs ++ ys)
          s
          (elim o [ done a s' ↦ f a s' | threw e s' ↦ threw e s' | blocked s' ↦ blocked s' ])
  use_from xs ys v s f h (done a s') (e, p) = rw e (shift xs ys s s' (f v s') p (h s'))
  use_from xs ys v s f h (threw x s') (first, rest, e, p) =
      (first, rest ++ ys, rw (e, append_assoc), p)
  use_from xs ys v s f h (blocked s') (first, rest, e, p) =
      (first, rest ++ ys, rw (e, append_assoc), p)

  -- A call whose result is known, and one that goes on from it.
  pub use-Yields :
      {A B : Type 0} (xs ys : List ℕ) (v : A) (s : b.State)
      (m : b.State → Outcome b.Error b.State A) (f : A → b.State → Outcome b.Error b.State B)
      → Yields xs v s (m s)
      → ((s' : b.State) → Appends ys s' (f v s'))
      → Appends (xs ++ ys) s ((m >>= f) s)
  use-Yields xs ys v s m f p h = use_from xs ys v s f h (m s) p
