-- ===== src/InputBuffer/Allocate.antt =====
-- `allocate_input_frame`: a frame is put behind those that wait, and disturbs none of them.
use reckless.Prelude.{
  ℕ, ◌+◌, ◌-◌, ◌≤◌, ◌<◌, ◌≡◌, refl, List, [], ◌∷◌, ◌++◌, append_assoc, Option, none, some, arith,
  ltb, ◌==◌, ==_iff, ltb→lt, true, false, inl, inr, ◌∙◌, Bool-cases,
}
use reckless.InputBuffer.{
  InputBuffer, align, advance, store, Attempt, allocated, wait_input_consumed, write_marker,
  try_allocate, frame_alignment,
}
use reckless.InputBuffer.Frames.{
  Run, stop, frame, Holds, one_piece, two_pieces, Run-le, Run-store, Run-snoc, Run-same,
}

module _ {F : Type 0} where
  pub store-in :
      (p n q : ℕ) (raw : ℕ → Option F) (b : InputBuffer F)
      → p ≤ q
      → q < p + n
      → (store p n raw b).word q ≡ raw q
  unfolding store
  store-in p n q raw b l u = ground arith

  pub store-below :
      (p n q : ℕ) (raw : ℕ → Option F) (b : InputBuffer F)
      → q < p
      → (store p n raw b).word q ≡ b.word q
  unfolding store
  store-below p n q raw b l = ground arith

  pub store-above :
      (p n q : ℕ) (raw : ℕ → Option F) (b : InputBuffer F)
      → p + n ≤ q
      → (store p n raw b).word q ≡ b.word q
  unfolding store
  store-above p n q raw b l = ground arith

  pub advance_inside : (b : InputBuffer F) (p n : ℕ) → p + n < b.size → advance b p n ≡ p + n
  unfolding advance
  advance_inside b p n h = ground arith

-- Where the attempt succeeds, and the frame's bytes are written, the frame stands behind the others.
pub data Pushed {F : Type 0} (frame_size : F → ℕ) (f : F) (raw : ℕ → ℕ → Option F) (fs : List F)
    : Attempt F → Type 0 where
  pushed :
      {p : ℕ} {b' : InputBuffer F}
      → Holds frame_size (store p (align (frame_size f)) (raw p) b') (fs ++ (f ∷ []))
      → Pushed frame_size f raw fs (allocated p b')
  waits : Pushed frame_size f raw fs wait_input_consumed

module _ {F : Type 0} (frame_size : F → ℕ) (f : F) (raw : ℕ → ℕ → Option F) (b : InputBuffer F)
    (header : (p : ℕ) → raw p p ≡ some f) (positive : 0 < align (frame_size f))
    (short : align (frame_size f) < b.size - 1) where
  abbrev n : ℕ
  n = align (frame_size f)

  -- An empty buffer is used from its beginning.
  rewound :
      Holds frame_size
        (store 0 n (raw 0) (record b { input_start = 0; input_end = advance b 0 n }))
        (f ∷ [])
  unfolding store
  rewound = rw (advance_inside b 0 n (omega arith)) (
      one_piece
        (frame (store-in 0 n 0 (raw 0) b (omega arith) (omega arith) ∙ header 0) positive
          (stop refl))
        (omega arith))

  -- Behind the last frame, in the same piece.
  behind :
      (fs : List F)
      → Run frame_size b.word b.input_end b.input_start fs
      → b.input_end + n < b.size
      → Holds frame_size
          (store b.input_end n (raw b.input_end) (record b { input_end = advance b b.input_end n }))
          (fs ++ (f ∷ []))
  unfolding store
  behind fs r room =
      let e = advance_inside b b.input_end n room in
      one_piece
        (Run-snoc frame_size
          (Run-store frame_size (λ q l u. store-below b.input_end n q (raw b.input_end) b u) r)
          (store-in b.input_end n b.input_end (raw b.input_end) b (omega arith) (omega arith)
            ∙ header b.input_end)
          positive e)
        (omega (arith, e))

  -- At the beginning, with the marker behind the last frame.
  wrapped :
      (fs : List F)
      → Run frame_size b.word b.input_end b.input_start fs
      → b.input_end < b.size
      → n < b.input_start
      → Holds frame_size
          (store 0 n (raw 0) (record (write_marker b) { input_end = advance b 0 n }))
          (fs ++ (f ∷ []))
  unfolding store write_marker
  wrapped fs r fits room =
      let le = Run-le frame_size r in
      let e = advance_inside b 0 n (omega arith) in
      let m = write_marker b in
      two_pieces b.input_end fs f []
        (Run-store frame_size
          (λ q l u.
            store-above 0 n q (raw 0) m (omega arith)
            ∙ store-below b.input_end frame_alignment q (λ q'. none) b u)
          r)
        (frame (store-in 0 n 0 (raw 0) m (omega arith) (omega arith) ∙ header 0) positive
          (stop (omega (arith, e))))
        (store-above 0 n b.input_end (raw 0) m (omega arith)
          ∙ store-in b.input_end frame_alignment b.input_end (λ q. none) b (omega arith)
              (omega arith))
        fits (omega (arith, e)) refl

  -- Between the second piece and the first.
  between :
      (m : ℕ) (first : List F) (g : F) (second : List F)
      → Run frame_size b.word m b.input_start first
      → Run frame_size b.word b.input_end 0 (g ∷ second)
      → b.word m ≡ none
      → m < b.size
      → b.input_end + n < b.input_start
      → Holds frame_size
          (store b.input_end n (raw b.input_end) (record b { input_end = advance b b.input_end n }))
          ((first ++ (g ∷ second)) ++ (f ∷ []))
  unfolding store
  between m first g second r1 r2 mark fits room =
      let le = Run-le frame_size r1 in
      let e = advance_inside b b.input_end n (omega arith) in
      two_pieces m first g (second ++ (f ∷ []))
        (Run-store frame_size
          (λ q l u. store-above b.input_end n q (raw b.input_end) b (omega arith)) r1)
        (Run-snoc frame_size
          (Run-store frame_size (λ q l u. store-below b.input_end n q (raw b.input_end) b u) r2)
          (store-in b.input_end n b.input_end (raw b.input_end) b (omega arith) (omega arith)
            ∙ header b.input_end)
          positive e)
        (store-above b.input_end n m (raw b.input_end) b (omega arith) ∙ mark) fits
        (omega (arith, e)) (append_assoc first (g ∷ second) (f ∷ []))

  one_piece-Pushed :
      (fs : List F)
      → Run frame_size b.word b.input_end b.input_start fs
      → b.input_end < b.size
      → Pushed frame_size f raw fs (try_allocate b (frame_size f))
  unfolding try_allocate
  one_piece-Pushed fs r fits = elim (Bool-cases (b.input_start == b.input_end)) [
    | inl e ↦ rw (e, Run-same frame_size ((==_iff _ _).0 e) r) (pushed rewound)
    | inr ne ↦
        rw (ne, not_below)
          (elim (Bool-cases (ltb n (b.size - b.input_end))) [
            | inl room ↦ rw room (pushed (behind fs r (ground arith)))
            | inr no_room ↦ rw no_room (elim (Bool-cases (ltb n b.input_start)) [
              | inl room' ↦ rw room' (pushed (wrapped fs r fits (ltb→lt _ _ room')))
              | inr full ↦ rw full waits
            ])
          ])
  ]
    where
      not_below : ltb b.input_end b.input_start ≡ false
      not_below = ground (arith, Run-le frame_size r)

  two_pieces-Pushed :
      (m : ℕ) (first : List F) (g : F) (second : List F)
      → Run frame_size b.word m b.input_start first
      → Run frame_size b.word b.input_end 0 (g ∷ second)
      → b.word m ≡ none
      → m < b.size
      → b.input_end < b.input_start
      → Pushed frame_size f raw (first ++ (g ∷ second)) (try_allocate b (frame_size f))
  unfolding try_allocate
  two_pieces-Pushed m first g second r1 r2 mark fits order =
      rw (ne, below)
        (elim (Bool-cases (ltb n (b.input_start - b.input_end))) [
          | inl room ↦ rw room (pushed (between m first g second r1 r2 mark fits (ground arith)))
          | inr full ↦ rw full waits
        ])
    where
      ne : (b.input_start == b.input_end) ≡ false
      ne = ground arith

      below : ltb b.input_end b.input_start ≡ true
      below = ground arith

  -- For a buffer that holds `fs`, a frame with a positive size that is below the buffer's size less
  -- one, and bytes that begin with the frame's dispatch pointer: if a round of
  -- `allocate_input_frame` allocates a place and the bytes are written there, the buffer holds `fs`
  -- and then the new frame.
  pub try_allocate-Pushed :
      (fs : List F)
      → Holds frame_size b fs
      → Pushed frame_size f raw fs (try_allocate b (frame_size f))
  try_allocate-Pushed fs (one_piece r fits) = one_piece-Pushed fs r fits
  try_allocate-Pushed fs (two_pieces m first g second r1 r2 mark fits order e) =
      rw e (two_pieces-Pushed m first g second r1 r2 mark fits order)
