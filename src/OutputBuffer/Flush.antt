-- ===== src/OutputBuffer/Flush.antt =====
-- `flush` and `reserve`: no committed byte is lost, repeated or moved, and incomplete frames stay.
use reckless.Prelude.{
  ℕ, zero, suc, ◌+◌, ◌-◌, ◌≤◌, ◌<◌, ◌≡◌, ◌≢◌, refl, List, [], ◌∷◌, ◌++◌, append_assoc, none, some,
  arith, ◌∙◌, ap, sym, length, take, drop, length-take, length-drop, take-append-drop,
  length-append, ltb, leb, ◌==◌, if◌then◌else◌, Bool-cases, ==_iff, leb→le, ltb→lt, inl, inr, false,
  true, Bool, add64, ◌^◌,
}
use reckless.Errors.{ErrorCode, is_temporary, writer_code, permanent_failure}
use reckless.OutputBuffer.{
  OutputBuffer, ErrorPolicy, ignore, notify_on_recovery, block, fail_immediately, WriteResult,
  wrote, exception, Call, done, flush_error, excessive_output_by_frame, undefined, blocked, Round,
  leave, fail, again, outside, capacity, discard, on_error, on_success, after_write, flush_round,
  flush_loop, flush, reserve_slow_path, reserve, count_of, error_of,
}

take-take : (k n : ℕ) (xs : List ℕ) → k ≤ n → take k (take n xs) ≡ take k xs
take-take zero n xs h = refl
take-take (suc k) zero xs h = absurd (omega arith)
take-take (suc k) (suc n) [] h = refl
take-take (suc k) (suc n) (x ∷ xs) h = ap (λ t. x ∷ t) (take-take k n xs (omega arith))

pub take-append : (k : ℕ) (xs ys : List ℕ) → k ≤ length xs → take k (xs ++ ys) ≡ take k xs
take-append zero xs ys h = refl
take-append (suc k) [] ys h = absurd (omega arith)
take-append (suc k) (x ∷ xs) ys h = ap (λ t. x ∷ t) (take-append k xs ys (omega arith))

not_ltb : (a b : ℕ) → b ≤ a → ltb a b ≡ false
not_ltb a b h = ground arith

-- What `writer` asks of an implementation of `write`: all of the data, or an error and no more than
-- the data.
pub record IsWriter {W : Type 0} (write : W → List ℕ → WriteResult × W) : Type 0 where
  pub at_most : (w : W) (d : List ℕ) → count_of (write w d).0 ≤ length d
  pub all : (w : W) (d : List ℕ) → error_of (write w d).0 ≡ none → count_of (write w d).0 ≡ length d

module _ {W : Type 0} where
  -- All that was committed, whether the writer has it or not.
  abbrev pub stream : OutputBuffer W → List ℕ
  stream s = s.sink ++ s.committed

  -- The first `k` bytes have gone to the writer, and nothing else has changed place.
  pub record Moved (k : ℕ) (s s' : OutputBuffer W) : Type 0 where
    pub inside : k ≤ s.frame_end
    pub same_stream : stream s' ≡ stream s
    pub rest : s'.committed ≡ drop k s.committed
    pub frames : s'.frame_end ≡ s.frame_end - k
    pub room : capacity s' ≡ capacity s
    pub temporary : s'.temporary_error_policy ≡ s.temporary_error_policy
    pub permanent : s'.permanent_error_policy ≡ s.permanent_error_policy

  -- The frame boundary lies within what is committed.
  abbrev pub IsBounded : OutputBuffer W → Type 0
  IsBounded s = s.frame_end ≤ length s.committed

  -- Neither policy polls the writer.
  abbrev pub DoesNotBlock : OutputBuffer W → Type 0
  DoesNotBlock s = (s.temporary_error_policy ≢ block) × (s.permanent_error_policy ≢ block)

  -- All complete frames are written, or an error has stopped the writer somewhere in them.
  abbrev pub Flushed : OutputBuffer W → Call (OutputBuffer W) → Type 0
  Flushed s (done s') = Moved s.frame_end s s'
  Flushed s (flush_error e s') = (k : ℕ) × Moved k s s'
  Flushed s (excessive_output_by_frame s') = ⊥
  Flushed s undefined = ⊥
  Flushed s (blocked s') = ⊥

  abbrev pub RoundMoves : OutputBuffer W → Round (OutputBuffer W) → Type 0
  RoundMoves s (leave s') = Moved s.frame_end s s'
  RoundMoves s (fail e s') = (k : ℕ) × Moved k s s'
  RoundMoves s (again r s') = Moved s.frame_end s s' × (r ≡ 0)
  RoundMoves s outside = ⊥

  discard-Moved :
      (k : ℕ) (s : OutputBuffer W) (w : W)
      → IsBounded s
      → k ≤ s.frame_end
      → Moved k s (
          discard k (record s {
            writer = w;
            sink = s.sink ++ take k (take s.frame_end (s.committed ++ s.stale));
          }))
  unfolding discard
  discard-Moved k s w h le = record {
    inside = le;
    same_stream = rw (
      take-take k s.frame_end (s.committed ++ s.stale) le,
      take-append k s.committed s.stale (omega arith),
      append_assoc,
      take-append-drop,
    );
    rest = refl;
    frames = refl;
    room = simp (length-drop, length-append) (omega arith);
    temporary = refl;
    permanent = refl;
  }

  set_error :
      (e : ErrorCode) (flag : Bool) (k : ℕ) (s s' : OutputBuffer W)
      → Moved k s s'
      → Moved k s (if flag then s' else record s' { error_code = some e; error_flag = true })
  set_error e true k s s' m = m
  set_error e false k s s' m = record {
    inside = m.inside;
    same_stream = m.same_stream;
    rest = m.rest;
    frames = m.frames;
    room = m.room;
    temporary = m.temporary;
    permanent = m.permanent;
  }

  on_error-fails :
      (e : ErrorCode) (p : ErrorPolicy) (r k : ℕ) (s s' : OutputBuffer W)
      → p ≢ block
      → Moved k s s'
      → RoundMoves s (on_error e p r s')
  unfolding on_error
  on_error-fails e ignore r k s s' h m = (k, m)
  on_error-fails e notify_on_recovery r k s s' h m = (
    k,
    record {
      inside = m.inside;
      same_stream = m.same_stream;
      rest = m.rest;
      frames = m.frames;
      room = m.room;
      temporary = m.temporary;
      permanent = m.permanent;
    },
  )
  on_error-fails e block r k s s' h m = absurd (h refl)
  on_error-fails e fail_immediately r k s s' h m = (k, set_error e s'.error_flag k s s' m)

module _ {W : Type 0} (write : W → List ℕ → WriteResult × W) where
  -- Without a callback a working writer leaves nothing to write again.
  on_success-moves :
      (s s' : OutputBuffer W) → Moved s.frame_end s s' → RoundMoves s (on_success write none s')
  unfolding on_success
  on_success-moves s s' m = elim (Bool-cases (s'.lost_input_frames == 0)) [
    | inl none_lost ↦ simp none_lost (record {
      inside = m.inside;
      same_stream = m.same_stream;
      rest = m.rest;
      frames = m.frames;
      room = m.room;
      temporary = m.temporary;
      permanent = m.permanent;
    })
    | inr some_lost ↦ simp some_lost (
      record {
        inside = m.inside;
        same_stream = m.same_stream;
        rest = m.rest;
        frames = m.frames;
        room = m.room;
        temporary = m.temporary;
        permanent = m.permanent;
      },
      omega (arith, m.frames),
    )
  ]

  policy-ne : (c : Bool) (p q : ErrorPolicy) → p ≢ block → q ≢ block → (if c then p else q) ≢ block
  policy-ne true p q h h' = h
  policy-ne false p q h h' = h'

  after_write-moves :
      (s : OutputBuffer W) (out : WriteResult × W)
      → IsBounded s
      → DoesNotBlock s
      → count_of out.0 ≤ s.frame_end
      → (error_of out.0 ≡ none → count_of out.0 ≡ s.frame_end)
      → RoundMoves s
          (after_write write none s.frame_end (take s.frame_end (s.committed ++ s.stale)) out s)
  unfolding after_write
  after_write-moves s (wrote n none, w) h p le all =
      rw (not_ltb (length s.committed) n (omega arith)) (
        on_success-moves s _ (
          let e : n ≡ s.frame_end = all refl in
          rw e (discard-Moved s.frame_end s w h (omega arith))))
  after_write-moves s (wrote n (some e), w) h p le all =
      rw (not_ltb (length s.committed) n (omega arith)) (
        on_error-fails e _ s.frame_end n s _ (policy-ne (is_temporary e) _ _ p.0 p.1)
          (discard-Moved n s w h le))
  after_write-moves s (exception, w) h p le all =
      rw (not_ltb (length s.committed) 0 (omega arith)) (
        on_error-fails (writer_code permanent_failure) _ s.frame_end 0 s _
          (policy-ne (is_temporary (writer_code permanent_failure)) _ _ p.0 p.1)
          (discard-Moved 0 s w h le))

pub Moved-none : {W : Type 0} (s : OutputBuffer W) → s.frame_end ≡ 0 → Moved s.frame_end s s
Moved-none s e = record {
  inside = omega arith;
  same_stream = refl;
  rest = ap (λ n. drop n s.committed) (sym e);
  frames = omega (arith, e);
  room = refl;
  temporary = refl;
  permanent = refl;
}

-- What is left when nothing is lost in a flush that had two rounds.
module _ {W : Type 0} (write : W → List ℕ → WriteResult × W) where
  pub done_at_zero :
      (fuel r : ℕ) (s : OutputBuffer W) → r ≡ 0 → flush_loop write none (suc fuel) r s ≡ done s
  unfolding flush_loop
  done_at_zero fuel r s e = rw e

  loop_from :
      (fuel : ℕ) (s : OutputBuffer W) (out : Round (OutputBuffer W))
      → RoundMoves s out
      → Flushed s (elim out [
        | leave s' ↦ done s'
        | fail e s' ↦ flush_error e s'
        | again remaining' s' ↦ flush_loop write none (suc fuel) remaining' s'
        | outside ↦ undefined
      ])
  loop_from fuel s (leave s') m = m
  loop_from fuel s (fail e s') m = m
  loop_from fuel s (again r s') (m, e) = rw (done_at_zero fuel r s' e) m
  loop_from fuel s outside m = absurd m

  pub flush_round-moves :
      (s : OutputBuffer W)
      → IsWriter write
      → IsBounded s
      → DoesNotBlock s
      → RoundMoves s (
          after_write write none s.frame_end
            (take s.frame_end (s.committed ++ s.stale))
            (write s.writer (take s.frame_end (s.committed ++ s.stale)))
            s)
  flush_round-moves s lawful h p =
      after_write-moves write s (write s.writer sent) h p
        (omega (arith, lawful.at_most s.writer sent, size)) (λ e. lawful.all s.writer sent e ∙ size)
    where
      sent : List ℕ
      sent = take s.frame_end (s.committed ++ s.stale)

      size : length sent ≡ s.frame_end
      size = omega (
        arith,
        length-take s.frame_end (s.committed ++ s.stale),
        length-append s.committed s.stale,
      )

  -- For a writer that takes all of the data or reports an error, policies that do not block, no
  -- callback, and a frame boundary within the committed bytes, two rounds suffice: the flush
  -- returns with all complete frames written, or throws flush_error with a first part of them
  -- written. In both cases the writer's bytes and the buffer's are together the bytes that were
  -- committed, in order, the bytes behind the frame boundary are still in the buffer, and its
  -- capacity is the same.
  pub flush-Flushed :
      (fuel : ℕ) (s : OutputBuffer W)
      → IsWriter write
      → IsBounded s
      → DoesNotBlock s
      → Flushed s (flush write none (suc (suc fuel)) s)
  unfolding flush flush_loop flush_round
  flush-Flushed fuel s lawful h p = elim (Bool-cases (s.frame_end == 0)) [
    | inl empty ↦ simp empty (Moved-none s ((==_iff _ _).0 empty))
    | inr some_frame ↦ simp some_frame (loop_from fuel s _ (flush_round-moves s lawful h p))
  ]

  -- Room was found, with the incomplete frame kept; or the frame is larger than the buffer.
  abbrev pub Reserved : ℕ → OutputBuffer W → Call (OutputBuffer W) → Type 0
  Reserved size s (done s') =
      (size ≤ length s'.stale)
      × (stream s' ≡ stream s)
      × (drop s'.frame_end s'.committed ≡ drop s.frame_end s.committed)
  Reserved size s (flush_error e s') = (k : ℕ) × Moved k s s'
  Reserved size s (excessive_output_by_frame s') =
      (s' ≡ s) × (capacity s < (length s.committed - s.frame_end) + size)
  Reserved size s undefined = ⊥
  Reserved size s (blocked s') = ⊥

  Flushed-Reserved :
      (size : ℕ) (s : OutputBuffer W) (c : Call (OutputBuffer W))
      → IsBounded s
      → (length s.committed - s.frame_end) + size ≤ capacity s
      → Flushed s c
      → Reserved size s c
  Flushed-Reserved size s (done s') h fits m =
      let e : s'.frame_end ≡ 0 = omega (arith, m.frames) in
      (
        omega (arith, m.room, ap length m.rest, length-drop s.frame_end s.committed),
        m.same_stream,
        ap (λ n. drop n s'.committed) e ∙ m.rest,
      )
  Flushed-Reserved size s (flush_error e s') h fits m = m
  Flushed-Reserved size s (excessive_output_by_frame s') h fits m = absurd m
  Flushed-Reserved size s undefined h fits m = absurd m
  Flushed-Reserved size s (blocked s') h fits m = absurd m

  -- `reserve` moves a first part of the complete frames to the writer, if anything, whether or not
  -- the sum of the sizes wraps around.
  abbrev pub ReserveMoves : OutputBuffer W → Call (OutputBuffer W) → Type 0
  ReserveMoves s (done s') = (k : ℕ) × Moved k s s'
  ReserveMoves s (flush_error e s') = (k : ℕ) × Moved k s s'
  ReserveMoves s (excessive_output_by_frame s') = s' ≡ s
  ReserveMoves s undefined = ⊥
  ReserveMoves s (blocked s') = ⊥

  Flushed-ReserveMoves :
      (s : OutputBuffer W) (c : Call (OutputBuffer W)) → Flushed s c → ReserveMoves s c
  Flushed-ReserveMoves s (done s') m = (s.frame_end, m)
  Flushed-ReserveMoves s (flush_error e s') m = m
  Flushed-ReserveMoves s (excessive_output_by_frame s') m = absurd m
  Flushed-ReserveMoves s undefined m = absurd m
  Flushed-ReserveMoves s (blocked s') m = absurd m

  pub slow_path-moves :
      (fuel size : ℕ) (s : OutputBuffer W)
      → IsWriter write
      → IsBounded s
      → DoesNotBlock s
      → ReserveMoves s (reserve_slow_path write none (suc (suc fuel)) size s)
  unfolding reserve_slow_path
  slow_path-moves fuel size s lawful h p =
      elim (Bool-cases (ltb (capacity s) (add64 (length s.committed - s.frame_end) size))) [
        | inl large ↦ simp large refl
        | inr fits ↦ simp fits (Flushed-ReserveMoves s _ (flush-Flushed fuel s lawful h p))
      ]

  pub Moved-zero : (s : OutputBuffer W) → Moved 0 s s
  Moved-zero s = record {
    inside = omega arith;
    same_stream = refl;
    rest = refl;
    frames = omega arith;
    room = refl;
    temporary = refl;
    permanent = refl;
  }

  pub reserve-moves :
      (fuel size : ℕ) (s : OutputBuffer W)
      → IsWriter write
      → IsBounded s
      → DoesNotBlock s
      → ReserveMoves s (reserve write none (suc (suc fuel)) size s)
  unfolding reserve
  reserve-moves fuel size s lawful h p = elim (Bool-cases (leb size (length s.stale))) [
    | inl room ↦ simp room (0, Moved-zero s)
    | inr full ↦ simp full (slow_path-moves fuel size s lawful h p)
  ]

  -- For a writer that takes all of the data or reports an error, policies that do not block, no
  -- callback, a frame boundary within the committed bytes, and a size that, with that of the
  -- current frame, is below 2^64: `reserve` returns with at least the
  -- room that was asked for, no byte lost and the current frame as it was; or throws flush_error,
  -- with a first part of the complete frames written; or throws excessive_output_by_frame, and then
  -- the current frame with the new bytes is larger than the whole buffer, which is as it was.
  pub reserve-Reserved :
      (fuel size : ℕ) (s : OutputBuffer W)
      → IsWriter write
      → IsBounded s
      → DoesNotBlock s
      → (length s.committed - s.frame_end) + size < 2 ^ 64
      → Reserved size s (reserve write none (suc (suc fuel)) size s)
  unfolding reserve reserve_slow_path
  reserve-Reserved fuel size s lawful h p small = elim (Bool-cases (leb size (length s.stale))) [
    | inl room ↦ simp room (leb→le _ _ room, refl, refl)
    | inr full ↦
        let e : add64 (length s.committed - s.frame_end) size
            ≡ (length s.committed - s.frame_end) + size =
          omega (arith, small) in
        simp (full, e)
          (elim (Bool-cases (ltb (capacity s) ((length s.committed - s.frame_end) + size))) [
            | inl large ↦ simp large (refl, ltb→lt _ _ large)
            | inr fits ↦
                simp fits
                  (Flushed-Reserved size s _ h (ground arith) (flush-Flushed fuel s lawful h p))
          ])
  ]
