-- ===== src/Log/Flights.antt =====
-- The frames on their way from the threads to the formatters, and where the worker stands among
-- them.
use reckless.Prelude.{
  ℕ, ◌≡◌, refl, sym, ap, ◌∙◌, List, [], ◌∷◌, ◌++◌, append-nil, arith, ◌==◌, Bool-cases,
  if◌then◌else◌, true, false, ◌⊎◌, inl, inr,
}
use reckless.InputBuffer.{InputBuffer}
use reckless.Log.{Extent, extent, terminator}
use reckless.Log.System.{
  Sender, ready, sending, Worker, starting, polling, processing, returned, halted, Life, running,
  closing, ended, IsPopping, at_start, at_poll,
}

-- A frame with its thread and the end of its extent.
abbrev pub Flight : Type 0 → Type 0
Flight F = ℕ × (F × ℕ)

abbrev pub last_extent : Life → List Extent
last_extent running = []
last_extent closing = terminator ∷ []
last_extent ended = []

pub thread_self : (i : ℕ) → (i == i) ≡ true
thread_self i = ground arith

module _ {F : Type 0} where
  abbrev pub extents : List (Flight F) → List Extent
  extents [] = []
  extents ((i, (f, e)) ∷ fl) = extent i e ∷ extents fl

  abbrev pub entries : List (Flight F) → List (ℕ × F)
  entries [] = []
  entries ((i, (f, e)) ∷ fl) = (i, f) ∷ entries fl

  abbrev pub of_thread : ℕ → List (Flight F) → List (F × ℕ)
  of_thread i [] = []
  of_thread i ((j, x) ∷ fl) = if j == i then x ∷ of_thread i fl else of_thread i fl

  -- The frame that a thread has written and not yet sent, which ends at `e`.
  abbrev pub pending : Sender F → ℕ → List (F × ℕ)
  pending ready e = []
  pending (sending marker f) e = (f, e) ∷ []

  pub extents-snoc :
      (fl : List (Flight F)) (i e : ℕ) (f : F)
      → extents (fl ++ (i, (f, e)) ∷ []) ≡ extents fl ++ extent i e ∷ []
  extents-snoc [] i e f = refl
  extents-snoc ((j, (g, d)) ∷ fl) i e f = ap (λ x. extent j d ∷ x) (extents-snoc fl i e f)

  pub entries-snoc :
      (fl : List (Flight F)) (i e : ℕ) (f : F)
      → entries (fl ++ (i, (f, e)) ∷ []) ≡ entries fl ++ (i, f) ∷ []
  entries-snoc [] i e f = refl
  entries-snoc ((j, (g, d)) ∷ fl) i e f = ap (λ x. (j, g) ∷ x) (entries-snoc fl i e f)

  pub of_thread-snoc :
      (fl : List (Flight F)) (i : ℕ) (x : F × ℕ)
      → of_thread i (fl ++ (i, x) ∷ []) ≡ of_thread i fl ++ x ∷ []
  of_thread-snoc [] i x = rw (thread_self i) refl
  of_thread-snoc ((j, y) ∷ fl) i x = elim (Bool-cases (j == i)) [
    | inl e ↦ simp e (ap (λ xs. y ∷ xs) (of_thread-snoc fl i x))
    | inr ne ↦ simp ne (of_thread-snoc fl i x)
  ]

  pub of_thread-snoc_ne :
      (fl : List (Flight F)) (i j : ℕ) (x : F × ℕ)
      → (j == i) ≡ false
      → of_thread i (fl ++ (j, x) ∷ []) ≡ of_thread i fl
  of_thread-snoc_ne [] i j x h = rw h refl
  of_thread-snoc_ne ((k, y) ∷ fl) i j x h = elim (Bool-cases (k == i)) [
    | inl e ↦ simp e (ap (λ xs. y ∷ xs) (of_thread-snoc_ne fl i j x h))
    | inr ne ↦ simp ne (of_thread-snoc_ne fl i j x h)
  ]

  -- Where the worker stands, with the frames in flight: at the end of an extent, or at the start of
  -- the input of a thread whose frame is the oldest in flight.
  abbrev pub AtWork : Worker → (ℕ → InputBuffer F) → List Extent → Life → List (Flight F) → Type 0
  AtWork starting bs c life fl = c ≡ extents fl ++ last_extent life
  AtWork (polling t) bs c life fl = c ≡ extents fl ++ last_extent life
  AtWork (processing i p e) bs c life fl =
      ((p ≡ e) × (c ≡ extents fl ++ last_extent life))
      ⊎ ((f : F) × (rest : List (Flight F)) × (p ≡ (bs i).input_start)
          × (fl ≡ (i, (f, e)) ∷ rest)
          × (c ≡ extents rest ++ last_extent life))
  AtWork returned bs c life fl = (fl ≡ []) × (life ≡ ended) × (c ≡ [])
  AtWork halted bs c life fl = c ≡ extents fl ++ last_extent life

  snoc_extent :
      (c : List Extent) (fl : List (Flight F)) (i e : ℕ) (f : F)
      → c ≡ extents fl ++ []
      → c ++ extent i e ∷ [] ≡ extents (fl ++ (i, (f, e)) ∷ []) ++ []
  snoc_extent c fl i e f h =
      ap (λ x. x ++ extent i e ∷ []) (h ∙ append-nil (extents fl))
      ∙ sym (extents-snoc fl i e f)
      ∙ sym (append-nil _)

  pub AtWork-send :
      (w : Worker) (bs : ℕ → InputBuffer F) (c : List Extent) (fl : List (Flight F)) (i e : ℕ)
      (f : F)
      → AtWork w bs c running fl
      → AtWork w bs (c ++ extent i e ∷ []) running (fl ++ (i, (f, e)) ∷ [])
  AtWork-send starting bs c fl i e f h = snoc_extent c fl i e f h
  AtWork-send (polling t) bs c fl i e f h = snoc_extent c fl i e f h
  AtWork-send (processing j p d) bs c fl i e f (inl (at_end, h)) =
      inl (at_end, snoc_extent c fl i e f h)
  AtWork-send (processing j p d) bs c fl i e f (inr (g, rest, at, same, h)) = inr (
    g,
    rest ++ (i, (f, e)) ∷ [],
    at,
    ap (λ x. x ++ (i, (f, e)) ∷ []) same,
    snoc_extent c rest i e f h,
  )
  AtWork-send returned bs c fl i e f (empty, life, h) = cc
  AtWork-send halted bs c fl i e f h = snoc_extent c fl i e f h

  snoc_terminator :
      (c : List Extent) (fl : List (Flight F))
      → c ≡ extents fl ++ []
      → c ++ terminator ∷ [] ≡ extents fl ++ terminator ∷ []
  snoc_terminator c fl h = ap (λ x. x ++ terminator ∷ []) (h ∙ append-nil (extents fl))

  pub AtWork-close :
      (w : Worker) (bs : ℕ → InputBuffer F) (c : List Extent) (fl : List (Flight F))
      → AtWork w bs c running fl
      → AtWork w bs (c ++ terminator ∷ []) closing fl
  AtWork-close starting bs c fl h = snoc_terminator c fl h
  AtWork-close (polling t) bs c fl h = snoc_terminator c fl h
  AtWork-close (processing j p d) bs c fl (inl (at_end, h)) = inl (at_end, snoc_terminator c fl h)
  AtWork-close (processing j p d) bs c fl (inr (g, rest, at, same, h)) =
      inr (g, rest, at, same, snoc_terminator c rest h)
  AtWork-close returned bs c fl (empty, life, h) = cc
  AtWork-close halted bs c fl h = snoc_terminator c fl h

  -- The threads may change the buffers, but not the start of the input where there is a frame.
  pub AtWork-buffers :
      (w : Worker) (bs bs' : ℕ → InputBuffer F) (c : List Extent) (life : Life)
      (fl : List (Flight F))
      → ((i : ℕ) (x : F × ℕ) (xs : List (F × ℕ))
          → of_thread i fl ≡ x ∷ xs
          → (bs' i).input_start ≡ (bs i).input_start)
      → AtWork w bs c life fl
      → AtWork w bs' c life fl
  AtWork-buffers starting bs bs' c life fl same h = h
  AtWork-buffers (polling t) bs bs' c life fl same h = h
  AtWork-buffers (processing i p e) bs bs' c life fl same (inl h) = inl h
  AtWork-buffers (processing i p e) bs bs' c life fl same (inr (f, rest, at, oldest, h)) = inr (
    f,
    rest,
    at ∙ sym (same i (f, e) (of_thread i rest) (ap (of_thread i) oldest ∙ head)),
    oldest,
    h,
  )
    where
      head : of_thread i ((i, (f, e)) ∷ rest) ≡ (f, e) ∷ of_thread i rest
      head = rw (thread_self i) refl
  AtWork-buffers returned bs bs' c life fl same h = h
  AtWork-buffers halted bs bs' c life fl same h = h

  -- What the worker pops is the oldest extent.
  pub oldest :
      (fl : List (Flight F)) (life : Life) (i e : ℕ) (c : List Extent)
      → extent i e ∷ c ≡ extents fl ++ last_extent life
      → (f : F) × (rest : List (Flight F)) × (fl ≡ (i, (f, e)) ∷ rest)
        × (c ≡ extents rest ++ last_extent life)
  oldest [] running i e c h = cc
  oldest [] closing i e c h = cc
  oldest [] ended i e c h = cc
  oldest ((j, (f, d)) ∷ fl) life i e c h =
      let thread : j ≡ i = cc in
      let end : d ≡ e = cc in
      (f, fl, ap (λ x. (j, (f, x)) ∷ fl) end ∙ ap (λ x. (x, (f, e)) ∷ fl) thread, cc)

  pub last_one :
      (fl : List (Flight F)) (life : Life) (c : List Extent)
      → terminator ∷ c ≡ extents fl ++ last_extent life
      → (fl ≡ []) × (c ≡ [])
  last_one [] running c h = cc
  last_one [] closing c h = (refl, cc)
  last_one [] ended c h = cc
  last_one ((j, (f, d)) ∷ fl) life c h = cc

  pub none_left :
      (fl : List (Flight F)) (life : Life) → [] ≡ extents fl ++ last_extent life → fl ≡ []
  none_left [] life h = refl
  none_left ((j, (f, d)) ∷ fl) life h = cc

  pub AtWork-popping :
      {w : Worker} (bs : ℕ → InputBuffer F) (c : List Extent) (life : Life) (fl : List (Flight F))
      → IsPopping w
      → AtWork w bs c life fl
      → c ≡ extents fl ++ last_extent life
  AtWork-popping bs c life fl at_start h = h
  AtWork-popping bs c life fl at_poll h = h
