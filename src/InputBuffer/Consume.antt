-- ===== src/InputBuffer/Consume.antt =====
-- The worker takes the frames of a buffer in the order in which they were put there.
use reckless.Prelude.{ℕ, ◌≡◌, refl, List, [], ◌∷◌, ◌++◌, none, some, arith, ◌∙◌, ap, sym, ◌↔◌}
use reckless.InputBuffer.{InputBuffer, align, advance, next_frame, wraparound, discard_input_frame}
use reckless.InputBuffer.Frames.{
  stop, frame, Holds, one_piece, two_pieces, Run-le, Run-same, Run-nil,
}
use reckless.InputBuffer.Allocate.{advance_inside}

module _ {F : Type 0} (frame_size : F → ℕ) where
  pub next_frame-some :
      (b : InputBuffer F) (f : F) → b.word b.input_start ≡ some f → next_frame b ≡ (some f, b)
  unfolding next_frame
  next_frame-some b f e = rw (e, next_frame)

  pub next_frame-none :
      (b : InputBuffer F) → b.word b.input_start ≡ none → next_frame b ≡ (b.word 0, wraparound b)
  unfolding next_frame wraparound
  next_frame-none b e = rw (e, next_frame)

  -- The frame that the worker finds, and the buffer after it is discarded.
  abbrev pub Pops : F → List F → InputBuffer F → Type 0
  Pops f fs b =
      let (found, b') = next_frame b in
      (found ≡ some f) × Holds frame_size (discard_input_frame (frame_size f) b') fs

  pop_direct :
      (b : InputBuffer F) (f : F) (fs : List F)
      → b.word b.input_start ≡ some f
      → Holds frame_size (discard_input_frame (frame_size f) b) fs
      → Pops f fs b
  pop_direct b f fs e h = rw (next_frame-some b f e) (refl, h)

  pop_wrapped :
      (b : InputBuffer F) (f : F) (fs : List F)
      → b.word b.input_start ≡ none
      → b.word 0 ≡ some f
      → Holds frame_size (discard_input_frame (frame_size f) (wraparound b)) fs
      → Pops f fs b
  pop_wrapped b f fs e w h = rw (next_frame-none b e) (w, h)

  -- If a buffer holds frames, the worker finds the oldest of them, behind the marker if the marker
  -- is there, and after it is discarded the buffer holds the others.
  pub Holds-pop :
      (b : InputBuffer F) (f : F) (fs : List F) → Holds frame_size b (f ∷ fs) → Pops f fs b
  unfolding discard_input_frame wraparound advance
  Holds-pop b f fs (one_piece (frame x positive r) fits) =
      let e =
        advance_inside b b.input_start (align (frame_size f))
          (omega (arith, Run-le frame_size r)) in
      pop_direct b f fs x (rw e (one_piece r fits))
  Holds-pop b f fs (two_pieces m [] g second (stop x) (frame y positive r) mark fits order e) =
      let same : f ≡ g = cc in
      let rest : fs ≡ second = cc in
      let inside = advance_inside b 0 (align (frame_size g)) (omega (arith, Run-le frame_size r)) in
      rw (same, rest)
        (pop_wrapped b g second (ap b.word x ∙ mark) y (rw inside (one_piece r (omega arith))))
  Holds-pop b f fs (two_pieces m (f' ∷ first) g second (frame x positive r) r2 mark fits order e) =
      let same : f ≡ f' = cc in
      let rest : fs ≡ first ++ (g ∷ second) = cc in
      let inside =
        advance_inside b b.input_start (align (frame_size f'))
          (omega (arith, Run-le frame_size r)) in
      rw (same, rest)
        (pop_direct b f' (first ++ (g ∷ second)) x
          (rw inside (two_pieces m first g second r r2 mark fits (omega arith) refl)))

  -- For a buffer that holds `fs`, the start meets the end exactly when `fs` is empty.
  pub Holds-empty :
      (b : InputBuffer F) (fs : List F)
      → Holds frame_size b fs
      → (b.input_start ≡ b.input_end) ↔ (fs ≡ [])
  Holds-empty b fs (one_piece r fits) =
      (λ e. Run-same frame_size e r, λ e. Run-nil frame_size (rw e at r))
  Holds-empty b fs (two_pieces m first g second r1 r2 mark fits order e) =
      (λ x. absurd (omega arith), λ x. absurd (append_cons first g second (sym e ∙ x)))
    where
      append_cons : (xs : List F) (y : F) (ys : List F) → xs ++ (y ∷ ys) ≡ [] → ⊥
      append_cons [] y ys h = cc
      append_cons (x ∷ xs) y ys h = cc
