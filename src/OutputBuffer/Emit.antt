-- ===== src/OutputBuffer/Emit.antt =====
-- A formatter's use of the output buffer: `reserve`, bytes, and `commit`, on the buffer itself and
-- through the interface.
use reckless.Prelude.{
  ℕ, ◌≡◌, refl, ap, List, take, length, leb, true, if◌then◌else◌, Bool-cases, inl, inr, none,
}
use reckless.Output.{Outcome, emit}
use reckless.OutputBuffer.{
  OutputBuffer, WriteResult, Call, done, flush_error, excessive_output_by_frame, undefined, blocked,
  reserve, commit,
}
use reckless.OutputBuffer.Flush.{IsWriter, ReserveMoves}
use reckless.OutputBuffer.Framed.{
  FormatError, flush_failed, excessive_output, overrun, Framed, from_call, Moved-Framed,
  framed_reserve, framed_commit, framed_buffer,
}

module _ {W : Type 0} where
  -- The outcome of a formatter, with the plain buffer.
  abbrev pub plain :
      {t : List ℕ}
      → Outcome FormatError (Framed W t) (Unit {0})
      → Outcome FormatError (OutputBuffer W) (Unit {0})
  plain (Outcome.done a f) = Outcome.done a f.buffer
  plain (Outcome.threw e f) = Outcome.threw e f.buffer
  plain (Outcome.blocked f) = Outcome.blocked f.buffer

module _ {W : Type 0} (write : W → List ℕ → WriteResult × W) where
  -- What a formatter makes of the result of `reserve`.
  unfoldable pub filled :
      ℕ
      → (List ℕ → List ℕ)
      → OutputBuffer W
      → Call (OutputBuffer W)
      → Outcome FormatError (OutputBuffer W) (Unit {0})
  filled n fill s (done s') =
      if leb n (length s'.stale)
      then Outcome.done tt (commit (fill (take n s'.stale)) s')
      else Outcome.threw overrun s'
  filled n fill s (flush_error e s') = Outcome.threw (flush_failed e) s'
  filled n fill s (excessive_output_by_frame s') = Outcome.threw excessive_output s'
  filled n fill s undefined = Outcome.threw overrun s
  filled n fill s (blocked s') = Outcome.blocked s'

  unfoldable pub emit_call :
      ℕ → (List ℕ → List ℕ) → OutputBuffer W → Outcome FormatError (OutputBuffer W) (Unit {0})
  emit_call n fill s = filled n fill s (reserve write none 2 n s)

module _ {W : Type 0} (write : W → List ℕ → WriteResult × W) (lawful : IsWriter write)
    (t : List ℕ) where
  -- What `emit` makes of it.
  abbrev behind :
      ℕ
      → (List ℕ → List ℕ)
      → Outcome FormatError (Framed W t) (Unit {0})
      → Outcome FormatError (OutputBuffer W) (Unit {0})
  behind n fill o = plain (elim o [
    | Outcome.done a s' ↦
        Outcome.done tt (framed_commit write lawful t (fill (take n s'.buffer.stale)) s')
    | Outcome.threw e s' ↦ Outcome.threw e s'
    | Outcome.blocked s' ↦ Outcome.blocked s'
  ])

  filled-from_call :
      (n : ℕ) (fill : List ℕ → List ℕ) (v : Framed W t) (c : Call (OutputBuffer W))
      (r : ReserveMoves write v.buffer c)
      → filled write n fill v.buffer c ≡ behind n fill (from_call write t n v c r)
  unfolding filled framed_commit from_call Moved-Framed
  filled-from_call n fill v (done s') (k, m) = elim (Bool-cases (leb n (length s'.stale))) [
    | inl room ↦ rw room refl
    | inr full ↦ rw full refl
  ]
  filled-from_call n fill v (flush_error e s') (k, m) = refl
  filled-from_call n fill v (excessive_output_by_frame s') e = ap (Outcome.threw excessive_output) e
  filled-from_call n fill v undefined r = absurd r
  filled-from_call n fill v (blocked s') r = absurd r

  filled-room :
      (n : ℕ) (fill : List ℕ → List ℕ) (v : Framed W t)
      → leb n (length v.buffer.stale) ≡ true
      → filled write n fill v.buffer (done v.buffer) ≡ behind n fill (Outcome.done tt v)
  unfolding filled framed_commit
  filled-room n fill v room = rw room refl

  filled-reserve :
      (n : ℕ) (fill : List ℕ → List ℕ) (v : Framed W t)
      → filled write n fill v.buffer (reserve write none 2 n v.buffer)
        ≡ behind n fill (framed_reserve write lawful t n v)
  unfolding framed_reserve reserve
  filled-reserve n fill v = elim (Bool-cases (leb n (length v.buffer.stale))) [
    | inl room ↦ rw room (filled-room n fill v room)
    | inr full ↦ rw full (filled-from_call n fill v _ _)
  ]

  -- Through the interface a formatter does what it does to the buffer itself.
  pub emit_call-emit :
      (n : ℕ) (fill : List ℕ → List ℕ) (v : Framed W t)
      → emit_call write n fill v.buffer ≡ plain (emit (framed_buffer write lawful t) n fill v)
  unfolding emit_call emit
  emit_call-emit n fill v = filled-reserve n fill v
