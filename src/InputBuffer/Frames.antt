-- ===== src/InputBuffer/Frames.antt =====
-- The frames that wait in an input buffer, oldest first.
use reckless.Prelude.{
  ℕ, ◌+◌, ◌≤◌, ◌<◌, ◌≡◌, refl, List, [], ◌∷◌, ◌++◌, Option, none, some, arith, ◌∙◌, ap,
}
use reckless.InputBuffer.{InputBuffer, align}

module _ {F : Type 0} (frame_size : F → ℕ) where
  -- The frames `fs` stand one behind the other from `p` to `e`.
  pub data Run (word : ℕ → Option F) (e : ℕ) : ℕ → List F → Type 0 where
    stop : {p : ℕ} → p ≡ e → Run word e p []
    frame :
        {p : ℕ} {f : F} {fs : List F}
        → word p ≡ some f
        → 0 < align (frame_size f)
        → Run word e (p + align (frame_size f)) fs
        → Run word e p (f ∷ fs)

  -- The frames of a buffer: in one piece, or in two pieces with the marker behind the first.
  pub data Holds (b : InputBuffer F) (fs : List F) : Type 0 where
    one_piece : Run b.word b.input_end b.input_start fs → b.input_end < b.size → Holds b fs
    two_pieces :
        (m : ℕ) (first : List F) (g : F) (second : List F)
        → Run b.word m b.input_start first
        → Run b.word b.input_end 0 (g ∷ second)
        → b.word m ≡ none
        → m < b.size
        → b.input_end < b.input_start
        → fs ≡ first ++ (g ∷ second)
        → Holds b fs

  pub Run-le : {word : ℕ → Option F} {e p : ℕ} {fs : List F} → Run word e p fs → p ≤ e
  Run-le (stop x) = omega arith
  Run-le (frame x pos r) = omega (arith, Run-le r)

  -- Frames are not disturbed by a write behind them or before them.
  pub Run-store :
      {word word' : ℕ → Option F} {e p : ℕ} {fs : List F}
      → ((q : ℕ) → p ≤ q → q < e → word' q ≡ word q)
      → Run word e p fs
      → Run word' e p fs
  Run-store h (stop x) = stop x
  Run-store {p = p} h (frame x pos r) =
      frame (h p (omega arith) (omega (arith, Run-le r)) ∙ x) pos
        (Run-store (λ q l u. h q (omega arith) u) r)

  -- One more frame at the end.
  pub Run-snoc :
      {word : ℕ → Option F} {e e' p : ℕ} {fs : List F} {f : F}
      → Run word e p fs
      → word e ≡ some f
      → 0 < align (frame_size f)
      → e' ≡ e + align (frame_size f)
      → Run word e' p (fs ++ (f ∷ []))
  Run-snoc {word} (stop x) w pos h = frame (ap word x ∙ w) pos (stop (omega arith))
  Run-snoc (frame y pos' r) w pos h = frame y pos' (Run-snoc r w pos h)

  -- There are no frames between a place and itself.
  pub Run-same : {word : ℕ → Option F} {e p : ℕ} {fs : List F} → p ≡ e → Run word e p fs → fs ≡ []
  Run-same h (stop x) = refl
  Run-same h (frame x pos r) = absurd (omega (arith, Run-le r))

  -- Frames that start before their end are not none.
  pub Run-nil : {word : ℕ → Option F} {e p : ℕ} → Run word e p [] → p ≡ e
  Run-nil (stop x) = x
