-- ===== src/Log/Invariant.antt =====
-- The invariant of the threads of the log: the frames in flight are those sent and not yet
-- formatted, they stand in the queue in this order, and the buffer of each thread holds its own.
use reckless.Prelude.{
  ℕ, ◌-◌, ◌<◌, ◌≡◌, refl, sym, ◌∙◌, List, [], ◌∷◌, ◌++◌, append-nil, Option, some, ◌==◌, ==_iff,
  Bool-cases, Bool, true, false, inl, inr,
}
use reckless.InputBuffer.{InputBuffer, align, store, try_allocate, allocated, discard_input_frame}
use reckless.Log.Placed.{Placed, Placed-flag, write-Placed, write-end}
use reckless.Log.System.{Sender, ready, sending, update, member, clear_flags, touch}
use reckless.Log.Flights.{
  Flight, of_thread, pending, thread_self, of_thread-snoc, of_thread-snoc_ne,
}

pub update_self {ℓ} : {A : Type ℓ} (i : ℕ) (a : A) (f : ℕ → A) → update i a f i ≡ a
unfolding update
update_self i a f = rw (thread_self i) refl

pub update_ne {ℓ} :
    {A : Type ℓ} (i j : ℕ) (a : A) (f : ℕ → A) → (i == j) ≡ false → update i a f j ≡ f j
unfolding update
update_ne i j a f h = rw h refl

store-end :
    {F : Type 0} (p n : ℕ) (raw : ℕ → Option F) (b : InputBuffer F)
    → (store p n raw b).input_end ≡ b.input_end
unfolding store
store-end p n raw b = refl

pub store-start :
    {F : Type 0} (p n : ℕ) (raw : ℕ → Option F) (b : InputBuffer F)
    → (store p n raw b).input_start ≡ b.input_start
unfolding store
store-start p n raw b = refl

module _ {F : Type 0} (frame_size : F → ℕ) where
  -- What the buffer of a thread holds: its frames in flight, and the one that is not yet sent.
  abbrev pub Held : (ℕ → InputBuffer F) → (ℕ → Sender F) → List (Flight F) → ℕ → Type 0
  Held bs ss fl i = Placed frame_size (bs i) (of_thread i fl ++ pending (ss i) (bs i).input_end)

  -- To change one thread's buffer and place, and the frames in flight of that thread only.
  Held-update :
      (bs : ℕ → InputBuffer F) (ss : ℕ → Sender F) (fl fl' : List (Flight F)) (i : ℕ)
      (b : InputBuffer F) (s : Sender F)
      → ((j : ℕ) → (i == j) ≡ false → of_thread j fl' ≡ of_thread j fl)
      → Placed frame_size b (of_thread i fl' ++ pending s b.input_end)
      → ((j : ℕ) → Held bs ss fl j)
      → (j : ℕ) → Held (update i b bs) (update i s ss) fl' j
  Held-update bs ss fl fl' i b s others own held j = elim (Bool-cases (i == j)) [
    | inl e ↦
        let same : i ≡ j = (==_iff i j).0 e in
        rw (sym same) (rw (update_self i b bs, update_self i s ss) own)
    | inr ne ↦ rw (update_ne i j b bs ne, update_ne i j s ss ne, others j ne) (held j)
  ]

  -- A thread that writes a frame.
  pub write-Held :
      (bs : ℕ → InputBuffer F) (ss : ℕ → Sender F) (fl : List (Flight F)) (i : ℕ) (f : F)
      (raw : ℕ → Option F) {p : ℕ} {b : InputBuffer F} (marker : ℕ)
      → ss i ≡ ready
      → 0 < align (frame_size f)
      → align (frame_size f) < (bs i).size - 1
      → try_allocate (bs i) (frame_size f) ≡ allocated p b
      → raw p ≡ some f
      → ((j : ℕ) → Held bs ss fl j)
      → (j : ℕ)
      → Held
          (update i (store p (align (frame_size f)) raw b) bs)
          (update i (sending marker f) ss)
          fl
          j
  write-Held bs ss fl i f raw {p} {b} marker is_ready positive short e header held =
      let before : Placed frame_size (bs i) (of_thread i fl) =
        rw (is_ready, append-nil (of_thread i fl)) at (held i) in
      let ends = write-end frame_size (bs i) f raw positive short e (of_thread i fl) before in
      Held-update bs ss fl fl i _ (sending marker f) (λ j ne. refl)
        (simp (store-end p (align (frame_size f)) raw b ∙ ends)
          (write-Placed frame_size (bs i) f raw positive short e (of_thread i fl) header before))
        held

  -- A thread whose frame is sent.
  pub send-Held :
      (bs : ℕ → InputBuffer F) (ss : ℕ → Sender F) (fl : List (Flight F)) (i marker : ℕ) (f : F)
      → ss i ≡ sending marker f
      → ((j : ℕ) → Held bs ss fl j)
      → (j : ℕ) → Held bs (update i ready ss) (fl ++ (i, (f, (bs i).input_end)) ∷ []) j
  send-Held bs ss fl i marker f e held j = elim (Bool-cases (i == j)) [
    | inl same' ↦
        let same : i ≡ j = (==_iff i j).0 same' in
        let before = rw e at (held i) in
        let r : Sender F = ready in
        rw (sym same) (
          rw
            (
              update_self i r ss,
              of_thread-snoc fl i (f, (bs i).input_end),
              append-nil (of_thread i fl ++ (f, (bs i).input_end) ∷ []),
            )
            before)
    | inr ne ↦
        let r : Sender F = ready in
        rw (update_ne i j r ss ne, of_thread-snoc_ne fl j i (f, (bs i).input_end) ne) (held j)
  ]

  touch-Placed :
      (panicking : Bool) (i : ℕ) (b : InputBuffer F) (touched : List ℕ) (fs : List (F × ℕ))
      → Placed frame_size b fs
      → Placed frame_size (touch panicking i b touched).0 fs
  unfolding touch
  touch-Placed true i b touched fs h = h
  touch-Placed false i b touched fs h = elim (Bool-cases b.input_consumed_flag) [
    | inl e ↦ simp e h
    | inr ne ↦ simp ne (Placed-flag frame_size b true fs h)
  ]

  touch-end :
      (panicking : Bool) (i : ℕ) (b : InputBuffer F) (touched : List ℕ)
      → (touch panicking i b touched).0.input_end ≡ b.input_end
  unfolding touch
  touch-end true i b touched = refl
  touch-end false i b touched = elim (Bool-cases b.input_consumed_flag) [
    | inl e ↦ simp e refl
    | inr ne ↦ simp ne refl
  ]

  pub touch-start :
      (panicking : Bool) (i : ℕ) (b : InputBuffer F) (touched : List ℕ)
      → (touch panicking i b touched).0.input_start ≡ b.input_start
  unfolding touch
  touch-start true i b touched = refl
  touch-start false i b touched = elim (Bool-cases b.input_consumed_flag) [
    | inl e ↦ simp e refl
    | inr ne ↦ simp ne refl
  ]

  -- The worker discards the oldest frame in flight.
  pub process-Held :
      (bs : ℕ → InputBuffer F) (ss : ℕ → Sender F) (rest : List (Flight F)) (i e : ℕ) (f : F)
      (b : InputBuffer F) (panicking : Bool) (touched : List ℕ)
      → (discard_input_frame (frame_size f) b).input_end ≡ (bs i).input_end
      → Placed frame_size
          (discard_input_frame (frame_size f) b)
          (of_thread i rest ++ pending (ss i) (bs i).input_end)
      → ((j : ℕ) → Held bs ss ((i, (f, e)) ∷ rest) j)
      → (j : ℕ)
      → Held
          (update i (touch panicking i (discard_input_frame (frame_size f) b) touched).0 bs)
          ss
          rest
          j
  process-Held bs ss rest i e f b panicking touched ends own held j = elim (Bool-cases (i == j)) [
    | inl same' ↦
        let same : i ≡ j = (==_iff i j).0 same' in
        let b' = discard_input_frame (frame_size f) b in
        rw (sym same) (
          simp
            (
              update_self i (touch panicking i b' touched).0 bs,
              touch-end panicking i b' touched,
              ends,
            )
            (touch-Placed panicking i b' touched _ own))
    | inr ne ↦
        rw
          (update_ne i j (touch panicking i (discard_input_frame (frame_size f) b) touched).0 bs ne)
          (simp ne at (held j))
  ]

  pub clear-Held :
      (bs : ℕ → InputBuffer F) (ss : ℕ → Sender F) (fl : List (Flight F)) (touched : List ℕ)
      → ((j : ℕ) → Held bs ss fl j)
      → (j : ℕ) → Held (clear_flags touched bs) ss fl j
  unfolding clear_flags
  clear-Held bs ss fl touched held j = elim (Bool-cases (member j touched)) [
    | inl e ↦ simp e (Placed-flag frame_size (bs j) false _ (held j))
    | inr ne ↦ simp ne (held j)
  ]
