-- ===== src/Log/Placed.antt =====
-- The frames of an input buffer with the ends of their extents: what the worker finds in the buffer
-- of a thread while the thread goes on to write.
pub mod Fetch
use reckless.Prelude.{
  ℕ, ◌+◌, ◌-◌, ◌<◌, ◌≡◌, ◌≢◌, refl, sym, ap, ◌∙◌, List, [], ◌∷◌, ◌++◌, Option, none, some, arith,
  ltb, leb, ◌&&◌, ◌==◌, Bool-cases, Option-cases, if◌then◌else◌, Bool, true, false, ◌⊎◌, inl, inr,
}
use mathlib.Core.Path.{fun_ext}
use reckless.InputBuffer.{
  InputBuffer, Attempt, allocated, wait_input_consumed, align, advance, store, write_marker,
  try_allocate, discard_input_frame, wraparound, create, frame_alignment,
}
use reckless.InputBuffer.Frames.{stop, frame, Holds, one_piece, two_pieces, Run-le}
use reckless.InputBuffer.Allocate.{Pushed, pushed, waits, try_allocate-Pushed, advance_inside}
use reckless.InputBuffer.Consume.{Holds-pop, next_frame-some, next_frame-none, Holds-empty}
use reckless.Log.{fetch}

module _ {F : Type 0} (frame_size : F → ℕ) where
  at_place : ℕ → Option F → Option (F × ℕ)
  at_place p none = none
  at_place p (some f) = some (f, p + align (frame_size f))

  -- Each frame with the place behind it.
  annotate : InputBuffer F → InputBuffer (F × ℕ)
  annotate b = record {
    size = b.size;
    input_start = b.input_start;
    input_end = b.input_end;
    word = λ p. at_place p (b.word p);
    input_consumed_flag = b.input_consumed_flag;
  }

  pub placed_size : F × ℕ → ℕ
  placed_size x = frame_size x.0

  -- A buffer holds frames that end at the places given.
  pub Placed : InputBuffer F → List (F × ℕ) → Type 0
  Placed b fs = Holds placed_size (annotate b) fs

  at_place-if :
      (c : Bool) (p : ℕ) (x y : Option F)
      → at_place p (if c then x else y) ≡ (if c then at_place p x else at_place p y)
  at_place-if true p x y = refl
  at_place-if false p x y = refl

  with_word : InputBuffer F → (ℕ → Option (F × ℕ)) → InputBuffer (F × ℕ)
  with_word b w = record (annotate b) { word = w }

  annotate-store :
      (p n : ℕ) (raw : ℕ → Option F) (b : InputBuffer F)
      → annotate (store p n raw b) ≡ store p n (λ q. at_place q (raw q)) (annotate b)
  unfolding annotate store with_word
  annotate-store p n raw b =
      ap (with_word b) (fun_ext (λ q. at_place-if (leb p q && ltb q (p + n)) q (raw q) (b.word q)))

  at_place-some :
      (p : ℕ) (x : Option F) {f : F} {e : ℕ}
      → at_place p x ≡ some (f, e)
      → (x ≡ some f) × (e ≡ p + align (frame_size f))
  unfolding at_place
  at_place-some p none h = cc
  at_place-some p (some g) {f} {e} h =
      let same : g ≡ f = cc in
      let ends : p + align (frame_size g) ≡ e = cc in
      (ap some same, sym ends ∙ ap (λ x. p + align (frame_size x)) same)

  at_place-none : (p : ℕ) (x : Option F) → at_place p x ≡ none → x ≡ none
  unfolding at_place
  at_place-none p none h = refl
  at_place-none p (some g) h = cc

  annotate_attempt : Attempt F → Attempt (F × ℕ)
  annotate_attempt (allocated p b) = allocated p (annotate b)
  annotate_attempt wait_input_consumed = wait_input_consumed

  annotate-end :
      (b : InputBuffer F) (e : ℕ)
      → annotate (record (write_marker b) { input_end = e })
        ≡ record (write_marker (annotate b)) { input_end = e }
  unfolding annotate write_marker store at_place
  annotate-end b e =
      ap (λ w. record (annotate b) { word = w; input_end = e })
        (fun_ext (λ q.
          at_place-if (leb b.input_end q && ltb q (b.input_end + frame_alignment)) q none
            (b.word q)))

  try_allocate-annotate :
      (b : InputBuffer F) (k : ℕ)
      → try_allocate (annotate b) k ≡ annotate_attempt (try_allocate b k)
  unfolding try_allocate annotate_attempt annotate advance
  try_allocate-annotate b k = elim (Bool-cases (b.input_start == b.input_end)) [
    | inl e ↦ simp e refl
    | inr ne ↦ elim (Bool-cases (ltb b.input_end b.input_start)) [
      | inl below ↦ elim (Bool-cases (ltb (align k) (b.input_start - b.input_end))) [
        | inl room ↦ simp (ne, below, room) refl
        | inr full ↦ simp (ne, below, full) refl
      ]
      | inr above ↦ elim (Bool-cases (ltb (align k) (b.size - b.input_end))) [
        | inl room ↦ simp (ne, above, room) refl
        | inr full ↦ elim (Bool-cases (ltb (align k) b.input_start)) [
          | inl room ↦ simp (ne, above, full, room) (ap (allocated 0) (sym (annotate-end b _)))
          | inr full' ↦ simp (ne, above, full, full') refl
        ]
      ]
    ]
  ]

  -- The bytes of the new frame, with the place behind it; elsewhere only the place given counts.
  new_frame : ℕ → (ℕ → Option F) → F → ℕ → ℕ → ℕ → Option (F × ℕ)
  new_frame p raw f e p' q = if q == p' then some (f, e) else at_place q (raw q)

  new_frame-at :
      (p : ℕ) (raw : ℕ → Option F) (f : F) (q : ℕ)
      → raw p ≡ some f
      → new_frame p raw f (p + align (frame_size f)) p q ≡ at_place q (raw q)
  unfolding new_frame at_place
  new_frame-at p raw f q h = elim (Bool-cases (q == p)) [
    | inl e ↦ let same : q ≡ p = ground arith in rw same (simp (self, h) refl)
    | inr ne ↦ rw ne refl
  ]
    where
      self : (p == p) ≡ true
      self = ground arith

  new_frame-header :
      (p : ℕ) (raw : ℕ → Option F) (f : F) (e p' : ℕ) → new_frame p raw f e p' p' ≡ some (f, e)
  unfolding new_frame
  new_frame-header p raw f e p' = ground arith

  Placed-inside :
      (b : InputBuffer F) (fs : List (F × ℕ))
      → Placed b fs
      → (b.input_start < b.size) × (b.input_end < b.size)
  unfolding Placed annotate
  Placed-inside b fs (one_piece r fits) = let l = Run-le placed_size r in (omega arith, fits)
  Placed-inside b fs (two_pieces m first g second r r2 mark fits order e) =
      let l = Run-le placed_size r in (omega arith, omega arith)

  Placed-start :
      (b : InputBuffer F) (x : F × ℕ) (fs : List (F × ℕ))
      → Placed b (x ∷ fs)
      → b.input_start ≢ b.input_end
  unfolding Placed annotate
  Placed-start b x fs held e =
      let absurd_list = (Holds-empty placed_size (annotate b) (x ∷ fs) held).0 e in cc

  module _ (b : InputBuffer F) (f : F) (raw : ℕ → Option F) {p : ℕ} {b' : InputBuffer F}
      (positive : 0 < align (frame_size f)) (short : align (frame_size f) < b.size - 1)
      (allocates : try_allocate b (frame_size f) ≡ allocated p b') where
    from_pushed :
        (fs : List (F × ℕ)) (e : ℕ) {a : Attempt (F × ℕ)}
        → a ≡ allocated p (annotate b')
        → Pushed placed_size (f, e) (new_frame p raw f e) fs a
        → Holds placed_size
            (store p (align (frame_size f)) (new_frame p raw f e p) (annotate b'))
            (fs ++ ((f, e) ∷ []))
    unfolding placed_size
    from_pushed fs e h (pushed {p = p'} {b' = b''} k) =
        let at_p : p' ≡ p = cc in let same : b'' ≡ annotate b' = cc in rw (at_p, same) at k
    from_pushed fs e h waits = cc

    pub write-Placed :
        (fs : List (F × ℕ))
        → raw p ≡ some f
        → Placed b fs
        → Placed
            (store p (align (frame_size f)) raw b')
            (fs ++ ((f, p + align (frame_size f)) ∷ []))
    unfolding annotate_attempt placed_size annotate Placed
    write-Placed fs h held =
        let e = p + align (frame_size f) in
        let k =
          from_pushed fs e (try_allocate-annotate b (frame_size f) ∙ ap annotate_attempt allocates)
            (try_allocate-Pushed placed_size (f, e) (new_frame p raw f e) (annotate b)
              (new_frame-header p raw f e) positive short fs held) in
        rw
          (
            annotate-store p (align (frame_size f)) raw b',
            sym (fun_ext (λ q. new_frame-at p raw f q h)),
          )
          k

    -- The end of the input is the end of the frame.
    pub write-end : (fs : List (F × ℕ)) → Placed b fs → b'.input_end ≡ p + align (frame_size f)
    unfolding try_allocate advance
    write-end fs held = let i = Placed-inside b fs held in ground arith

    -- The start of the input stays where there is a frame.
    pub write-start :
        (x : F × ℕ) (fs : List (F × ℕ)) → Placed b (x ∷ fs) → b'.input_start ≡ b.input_start
    unfolding try_allocate write_marker store
    write-start x fs held = let i = Placed-start b x fs held in ground arith

  pub Placed-create : (raw : ℕ → Option F) (size : ℕ) → 0 < size → Placed (create raw size) []
  unfolding Placed annotate create
  Placed-create raw size h = one_piece (stop refl) h

  pub Placed-flag :
      (b : InputBuffer F) (c : Bool) (fs : List (F × ℕ))
      → Placed b fs
      → Placed (record b { input_consumed_flag = c }) fs
  unfolding Placed annotate
  Placed-flag b c fs (one_piece r fits) = one_piece r fits
  Placed-flag b c fs (two_pieces m first g second r r2 mark fits order e) =
      two_pieces m first g second r r2 mark fits order e
