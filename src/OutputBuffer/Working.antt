-- ===== src/OutputBuffer/Working.antt =====
-- `flush` and `reserve` of reckless/src/output_buffer.cpp with a writer that does not fail.
use reckless.Prelude.{
  ℕ, suc, false, ◌+◌, ◌-◌, ◌≤◌, ◌<◌, ◌^◌, ◌≡◌, refl, List, none, some, arith, length, ltb, leb,
  ◌==◌, Bool-cases, ==_iff, inl, inr, ap, length-drop, add64,
}
use reckless.OutputBuffer.{
  OutputBuffer, WriteResult, wrote, exception, Call, done, flush_error, undefined, Round, leave,
  fail, again, outside, capacity, after_write, on_success, flush_round, flush_loop, flush,
  reserve_slow_path, reserve, error_of,
}
use reckless.OutputBuffer.Flush.{
  IsWriter, Moved, Moved-none, Moved-zero, IsBounded, DoesNotBlock, RoundMoves, done_at_zero,
  flush_round-moves,
}

module _ {W : Type 0} (write : W → List ℕ → WriteResult × W) where
  -- A writer that reports no error, and so takes all that it is given.
  pub record IsWorking : Type 0 where
    pub lawful : IsWriter write
    pub works : (w : W) (d : List ℕ) → error_of (write w d).0 ≡ none

  abbrev Succeeds : Round (OutputBuffer W) → Type 0
  Succeeds (leave s') = Unit
  Succeeds (fail e s') = ⊥
  Succeeds (again r s') = Unit
  Succeeds outside = Unit

  on_success-Succeeds : (s : OutputBuffer W) → Succeeds (on_success write none s)
  unfolding on_success
  on_success-Succeeds s = elim (Bool-cases (s.lost_input_frames == 0)) [
    | inl none_lost ↦ simp none_lost tt
    | inr some_lost ↦ simp some_lost tt
  ]

  after_write-Succeeds :
      (r : ℕ) (sent : List ℕ) (out : WriteResult × W) (s : OutputBuffer W)
      → error_of out.0 ≡ none
      → Succeeds (after_write write none r sent out s)
  unfolding after_write
  after_write-Succeeds r sent (wrote n none, w) s e =
      elim (Bool-cases (ltb (length s.committed) n)) [
        | inl large ↦ rw large tt
        | inr fits ↦ rw fits (on_success-Succeeds _)
      ]
  after_write-Succeeds r sent (wrote n (some x), w) s e = absurd cc
  after_write-Succeeds r sent (exception, w) s e = absurd cc

  abbrev pub Returns : OutputBuffer W → Call (OutputBuffer W) → Type 0
  Returns s c = (s' : OutputBuffer W) × (c ≡ done s') × Moved s.frame_end s s'

  loop-Returns :
      (fuel : ℕ) (s : OutputBuffer W) (out : Round (OutputBuffer W))
      → RoundMoves s out
      → Succeeds out
      → Returns s (elim out [
        | leave s' ↦ done s'
        | fail e s' ↦ flush_error e s'
        | again remaining' s' ↦ flush_loop write none (suc fuel) remaining' s'
        | outside ↦ undefined
      ])
  loop-Returns fuel s (leave s') m ok = (s', refl, m)
  loop-Returns fuel s (fail e s') m ok = absurd ok
  loop-Returns fuel s (again r s') (m, e) ok = (s', done_at_zero write fuel r s' e, m)
  loop-Returns fuel s outside m ok = absurd m

  pub flush-Returns :
      (fuel : ℕ) (s : OutputBuffer W)
      → IsWorking
      → IsBounded s
      → DoesNotBlock s
      → Returns s (flush write none (suc (suc fuel)) s)
  unfolding flush flush_loop flush_round
  flush-Returns fuel s w h p = elim (Bool-cases (s.frame_end == 0)) [
    | inl empty ↦ simp empty (s, refl, Moved-none s ((==_iff _ _).0 empty))
    | inr some_frame ↦ simp some_frame (
        loop-Returns fuel s _ (flush_round-moves write s w.lawful h p)
          (after_write-Succeeds s.frame_end _ _ s (w.works s.writer _)))
  ]

  -- A frame that fits into the buffer finds its room.
  pub reserve-room :
      (size : ℕ) (s : OutputBuffer W)
      → IsWorking
      → IsBounded s
      → DoesNotBlock s
      → (length s.committed - s.frame_end) + size ≤ capacity s
      → (length s.committed - s.frame_end) + size < 2 ^ 64
      → (s' : OutputBuffer W) × (k : ℕ) × (reserve write none 2 size s ≡ done s')
        × Moved k s s'
        × (size ≤ length s'.stale)
  unfolding reserve reserve_slow_path
  reserve-room size s w h p fits small = elim (Bool-cases (leb size (length s.stale))) [
    | inl room ↦ simp room (s, 0, refl, Moved-zero write s, ground arith)
    | inr full ↦
        let e : add64 (length s.committed - s.frame_end) size
            ≡ (length s.committed - s.frame_end) + size =
          omega (arith, small) in
        let e' : ltb (capacity s) ((length s.committed - s.frame_end) + size) ≡ false =
          ground arith in
        let (s', returns, m) = flush-Returns 0 s w h p in
        simp (full, e, e')
          (
            s',
            s.frame_end,
            returns,
            m,
            omega (arith, m.room, m.frames, ap length m.rest, length-drop s.frame_end s.committed),
          )
  ]
