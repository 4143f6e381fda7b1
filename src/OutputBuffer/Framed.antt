-- ===== src/OutputBuffer/Framed.antt =====
-- The output buffer as an implementation of the interface that the formatters use: `reserve` and
-- `commit` of reckless/include/reckless/output_buffer.hpp, in the course of one frame.
use reckless.Prelude.{
  ℕ, ◌+◌, ◌≤◌, ◌≡◌, refl, sym, ap, ◌∙◌, List, ◌++◌, append_assoc, none, arith, length, take,
  length-append, length-drop, length-take, leb, leb→le, le→leb, if◌then◌else◌, Bool-cases, inl, inr,
}
use reckless.Errors.{ErrorCode}
use reckless.Output.{Outcome, Buffer}
use reckless.OutputBuffer.{
  OutputBuffer, WriteResult, Call, done, flush_error, excessive_output_by_frame, undefined, blocked,
  reserve_slow_path, commit,
}
use reckless.OutputBuffer.Flush.{
  IsWriter, stream, Moved, IsBounded, DoesNotBlock, ReserveMoves, slow_path-moves, take-append,
}

-- The exceptions that pass through a formatter. `overrun` is none: `reserve` has returned without the
-- room, which it does when the sum of the sizes wraps around, and the formatter goes on, which is
-- undefined behaviour.
pub data FormatError : Type 0 where
  flush_failed : ErrorCode → FormatError
  excessive_output : FormatError
  overrun : FormatError
  other_exception : FormatError

-- A buffer in the course of a frame: `frames` are the complete frames up to the watermark.
pub record Framed (W : Type 0) (frames : List ℕ) : Type 0 where
  pub buffer : OutputBuffer W
  pub bounded : IsBounded buffer
  pub quiet : DoesNotBlock buffer
  pub complete : take (length buffer.sink + buffer.frame_end) (stream buffer) ≡ frames

module _ {W : Type 0} (write : W → List ℕ → WriteResult × W) where
  unfoldable pub Moved-Framed :
      (frames : List ℕ) (k : ℕ) (f : Framed W frames) (s' : OutputBuffer W)
      → Moved k f.buffer s'
      → Framed W frames
  Moved-Framed frames k f s' m =
      let s = f.buffer in
      let whole = ap length m.same_stream in
      let l1 = length-append s.sink s.committed in
      let l2 = length-append s'.sink s'.committed in
      let rest = ap length m.rest in
      let l3 = length-drop k s.committed in
      let same : length s'.sink + s'.frame_end ≡ length s.sink + s.frame_end =
        omega (arith, m.frames, m.inside, f.bounded) in
      record {
        buffer = s';
        bounded = omega (arith, m.frames, m.inside, f.bounded);
        quiet = rw (m.temporary, m.permanent) f.quiet;
        complete = rw (same, m.same_stream) f.complete;
      }

  unfoldable pub from_call :
      (frames : List ℕ) (size : ℕ) (f : Framed W frames) (c : Call (OutputBuffer W))
      → ReserveMoves write f.buffer c
      → Outcome FormatError (Framed W frames) (Unit {0})
  from_call frames size f (done s') (k, m) =
      if leb size (length s'.stale)
      then Outcome.done tt (Moved-Framed frames k f s' m)
      else Outcome.threw overrun (Moved-Framed frames k f s' m)
  from_call frames size f (flush_error e s') (k, m) =
      Outcome.threw (flush_failed e) (Moved-Framed frames k f s' m)
  from_call frames size f (excessive_output_by_frame s') e = Outcome.threw excessive_output f
  from_call frames size f undefined r = absurd r
  from_call frames size f (blocked s') r = absurd r

  text_of : {frames : List ℕ} → Outcome FormatError (Framed W frames) (Unit {0}) → List ℕ
  text_of (Outcome.done a f) = stream f.buffer
  text_of (Outcome.threw e f) = stream f.buffer
  text_of (Outcome.blocked f) = stream f.buffer

  RoomOf : {frames : List ℕ} → Outcome FormatError (Framed W frames) (Unit {0}) → ℕ → Type 0
  RoomOf (Outcome.done a f) n = n ≤ length f.buffer.stale
  RoomOf (Outcome.threw e f) n = Unit
  RoomOf (Outcome.blocked f) n = Unit

  from_call-text :
      (frames : List ℕ) (size : ℕ) (f : Framed W frames) (c : Call (OutputBuffer W))
      (r : ReserveMoves write f.buffer c)
      → (text_of (from_call frames size f c r) ≡ stream f.buffer)
        × RoomOf (from_call frames size f c r) size
  unfolding from_call Moved-Framed text_of RoomOf
  from_call-text frames size f (done s') (k, m) = elim (Bool-cases (leb size (length s'.stale))) [
    | inl room ↦ rw room (m.same_stream, leb→le size _ room)
    | inr full ↦ rw full (m.same_stream, tt)
  ]
  from_call-text frames size f (flush_error e s') (k, m) = (m.same_stream, tt)
  from_call-text frames size f (excessive_output_by_frame s') e = (refl, tt)
  from_call-text frames size f undefined r = absurd r
  from_call-text frames size f (blocked s') r = absurd r

module _ {W : Type 0} (write : W → List ℕ → WriteResult × W) (lawful : IsWriter write)
    (frames : List ℕ) where
  abbrev Result : Type 0
  Result = Outcome FormatError (Framed W frames) (Unit {0})

  unfoldable pub framed_reserve : ℕ → Framed W frames → Result
  framed_reserve n f =
      if leb n (length f.buffer.stale)
      then Outcome.done tt f
      else from_call write frames n f (reserve_slow_path write none 2 n f.buffer)
          (slow_path-moves write 0 n f.buffer lawful f.bounded f.quiet)

  unfoldable pub framed_commit : List ℕ → Framed W frames → Framed W frames
  unfolding commit
  framed_commit bytes f =
      let s = f.buffer in
      let l1 = length-append s.sink s.committed in
      record {
        buffer = commit bytes s;
        bounded = omega (arith, length-append s.committed bytes, f.bounded);
        quiet = f.quiet;
        complete =
            ap (take (length s.sink + s.frame_end)) (sym (append_assoc s.sink s.committed bytes))
            ∙ take-append (length s.sink + s.frame_end) (stream s) bytes
                (omega (arith, l1, f.bounded))
            ∙ f.complete;
      }

  reserve-text :
      (n : ℕ) (f : Framed W frames)
      → (text_of write (framed_reserve n f) ≡ stream f.buffer) × RoomOf write (framed_reserve n f) n
  unfolding framed_reserve text_of RoomOf
  reserve-text n f = elim (Bool-cases (leb n (length f.buffer.stale))) [
    | inl room ↦ rw room (refl, leb→le n _ room)
    | inr full ↦ rw full (from_call-text write frames n f _ _)
  ]

  pub text-commit_lem :
      (bytes : List ℕ) (f : Framed W frames)
      → stream (framed_commit bytes f).buffer ≡ stream f.buffer ++ bytes
  unfolding framed_commit commit
  text-commit_lem bytes f = sym (append_assoc f.buffer.sink f.buffer.committed bytes)

  pub space-commit_lem :
      (n : ℕ) (bytes : List ℕ) (f : Framed W frames)
      → n ≤ length f.buffer.stale
      → length bytes ≡ n
      → length (framed_commit bytes f).buffer.stale + n ≡ length f.buffer.stale
  unfolding framed_commit commit
  space-commit_lem n bytes f h e = omega (arith, length-drop (length bytes) f.buffer.stale)

  result-text :
      (n : ℕ) (f : Framed W frames) (o : Result)
      → framed_reserve n f ≡ o
      → text_of write o ≡ stream f.buffer
  result-text n f o e = ap (text_of write) (sym e) ∙ (reserve-text n f).0

  pub result-room :
      (n : ℕ) (f f' : Framed W frames)
      → framed_reserve n f ≡ Outcome.done tt f'
      → length (take n f'.buffer.stale) ≡ n
  unfolding RoomOf
  result-room n f f' e =
      let r = rw e at (reserve-text n f).1 in omega (arith, r, length-take n f'.buffer.stale)

  pub reserve_at_once :
      (n : ℕ) (f : Framed W frames)
      → n ≤ length f.buffer.stale
      → framed_reserve n f ≡ Outcome.done tt f
  unfolding framed_reserve
  reserve_at_once n f h = rw (le→leb n (length f.buffer.stale) h) refl

  pub done-text :
      (n : ℕ) (f : Framed W frames) {f' : Framed W frames}
      → framed_reserve n f ≡ Outcome.done tt f'
      → stream f'.buffer ≡ stream f.buffer
  unfolding text_of
  done-text n f {f'} e = result-text n f (Outcome.done tt f') e

  pub threw-text :
      (n : ℕ) (f : Framed W frames) {x : FormatError} {f' : Framed W frames}
      → framed_reserve n f ≡ Outcome.threw x f'
      → stream f'.buffer ≡ stream f.buffer
  unfolding text_of
  threw-text n f {x} {f'} e = result-text n f (Outcome.threw x f') e

  pub blocked-text :
      (n : ℕ) (f : Framed W frames) {f' : Framed W frames}
      → framed_reserve n f ≡ Outcome.blocked f'
      → stream f'.buffer ≡ stream f.buffer
  unfolding text_of
  blocked-text n f {f'} e = result-text n f (Outcome.blocked f') e

  -- The interface, implemented.
  abbrev pub framed_buffer : Buffer
  framed_buffer = record {
    State = Framed W frames;
    Error = FormatError;
    text = λ f. stream f.buffer;
    space = λ f. length f.buffer.stale;
    reserve = framed_reserve;
    region = λ n f. take n f.buffer.stale;
    commit = framed_commit;
    reserve_done = done-text;
    reserve_threw = threw-text;
    reserve_blocked = blocked-text;
    reserve_fits = reserve_at_once;
    length-region = λ n f e. result-room n f _ e;
    text-commit = λ n bytes f {s' = f'} e l. text-commit_lem bytes f';
    space-commit = space-commit_lem;
  }
