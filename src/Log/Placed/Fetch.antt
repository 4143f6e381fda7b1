-- ===== src/Log/Placed/Fetch.antt =====
-- What the worker finds at the start of an input buffer.
use reckless.Prelude.{
  ℕ, ◌+◌, ◌<◌, ◌≡◌, ◌≢◌, sym, ap, ◌∙◌, List, [], ◌∷◌, Option, none, some, arith, Option-cases, ◌⊎◌,
  inl, inr,
}
use reckless.InputBuffer.{InputBuffer, align, advance, discard_input_frame, wraparound}
use reckless.InputBuffer.Frames.{stop, frame, Holds, one_piece, two_pieces, Run-le}
use reckless.InputBuffer.Allocate.{advance_inside}
use reckless.InputBuffer.Consume.{Holds-pop, next_frame-some, next_frame-none}
use reckless.Log.{fetch}
use reckless.Log.Placed.{annotate, placed_size, Placed, at_place-some, at_place-none}

-- The oldest frame stands at the start, or behind the marker at the beginning.
module _ {F : Type 0} (frame_size : F → ℕ) where
  abbrev First : F → InputBuffer F → Type 0
  First f b =
      ((b.word b.input_start ≡ some f) × (b.input_start + align (frame_size f) < b.size))
      ⊎ ((b.word b.input_start ≡ none)
          × (b.word 0 ≡ some f)
          × (align (frame_size f) < b.input_start)
          × (b.input_start < b.size))

  Holds-First :
      (b : InputBuffer F) (f : F) (fs : List F)
      → Holds frame_size b (f ∷ fs)
      → (0 < align (frame_size f)) × First f b
  Holds-First b f fs (one_piece (frame x positive r) fits) =
      (positive, inl (x, omega (arith, Run-le frame_size r)))
  Holds-First b f fs (two_pieces m [] g second (stop x) (frame y positive r) mark fits order e) =
      let same : f ≡ g = cc in
      rw same
        (positive, inr (ap b.word x ∙ mark, y, omega (arith, Run-le frame_size r), omega arith))
  Holds-First b f fs
        (two_pieces m (f' ∷ first) g second (frame x positive r) r2 mark fits order e) =
      let same : f ≡ f' = cc in rw same (positive, inl (x, omega (arith, Run-le frame_size r)))

module _ {F : Type 0} (frame_size : F → ℕ) where
  -- What the worker makes of the oldest frame: its place is not the end of its extent, it is found
  -- there or behind the marker, and the next place is the end of the extent.
  pub record Fetched (b : InputBuffer F) (f : F) (e : ℕ) (fs : List (F × ℕ)) : Type 0 where
    pub not_end : b.input_start ≢ e
    pub behind : InputBuffer F
    pub found : fetch b.input_start b ≡ (some f, behind)
    pub at_end : (discard_input_frame (frame_size f) behind).input_start ≡ e
    pub others : Placed frame_size (discard_input_frame (frame_size f) behind) fs

  fetch-some : (p : ℕ) (b : InputBuffer F) (f : F) → b.word p ≡ some f → fetch p b ≡ (some f, b)
  unfolding fetch
  fetch-some p b f e = rw (e, fetch)

  fetch-none : (p : ℕ) (b : InputBuffer F) → b.word p ≡ none → fetch p b ≡ (b.word 0, wraparound b)
  unfolding fetch wraparound
  fetch-none p b e = rw (e, fetch)

  pub Placed-Fetched :
      (b : InputBuffer F) (f : F) (e : ℕ) (fs : List (F × ℕ))
      → Placed frame_size b ((f, e) ∷ fs)
      → Fetched b f e fs
  unfolding Placed annotate discard_input_frame wraparound placed_size advance
  Placed-Fetched b f e fs held =
      let (positive, first) =
        Holds-First (placed_size frame_size) (annotate frame_size b) (f, e) fs held in
      let pops = Holds-pop (placed_size frame_size) (annotate frame_size b) (f, e) fs held in
      elim first [
        | inl (x, inside) ↦
            let (w, ends) = at_place-some frame_size b.input_start (b.word b.input_start) x in
            record {
              not_end = omega arith;
              behind = b;
              found = fetch-some b.input_start b f w;
              at_end = advance_inside b b.input_start (align (frame_size f)) inside ∙ sym ends;
              others =
                  (rw (next_frame-some (placed_size frame_size) (annotate frame_size b) (f, e) x) at
                    pops).1;
            }
        | inr (mark, x, below, inside) ↦
            let w = at_place-none frame_size b.input_start (b.word b.input_start) mark in
            let (w0, ends) = at_place-some frame_size 0 (b.word 0) x in
            record {
              not_end = omega arith;
              behind = wraparound b;
              found = fetch-none b.input_start b w ∙ ap (λ x. (x, wraparound b)) w0;
              at_end = advance_inside b 0 (align (frame_size f)) (omega arith) ∙ sym ends;
              others =
                  (rw (next_frame-none (placed_size frame_size) (annotate frame_size b) mark) at
                    pops).1;
            }
      ]

  -- Neither the search for a frame nor its end moves the end of the input.
  pub process-end :
      (p n : ℕ) (b : InputBuffer F) {o : Option F} {b' : InputBuffer F}
      → fetch p b ≡ (o, b')
      → (discard_input_frame n b').input_end ≡ b.input_end
  unfolding wraparound discard_input_frame
  process-end p n b {b' = b'} e = elim (Option-cases (b.word p)) [
    | inl none_there ↦
        let same : wraparound b ≡ b' = ap (λ x. x.1) (sym (fetch-none p b none_there) ∙ e) in
        ap (λ x. x.input_end) (sym same)
    | inr (f, there) ↦
        let same : b ≡ b' = ap (λ x. x.1) (sym (fetch-some p b f there) ∙ e) in
        ap (λ x. x.input_end) (sym same)
  ]
