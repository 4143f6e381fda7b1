-- ===== src/OutputBuffer/Lost.antt =====
-- What the worker does when a formatter fails: `lost_frame` of
-- reckless/include/reckless/output_buffer.hpp after a failed `reserve`.
use reckless.Prelude.{
  ℕ, zero, suc, ◌+◌, ◌≡◌, refl, sym, ap, ◌∙◌, List, [], ◌∷◌, ◌++◌, none, arith, length, take,
  length-append, length-drop, length-take,
}
use reckless.OutputBuffer.{
  OutputBuffer, WriteResult, Call, done, flush_error, excessive_output_by_frame, undefined, blocked,
  lost_frame, reserve,
}
use reckless.OutputBuffer.Flush.{
  IsWriter, stream, Moved, IsBounded, DoesNotBlock, ReserveMoves, reserve-moves,
}

take-beyond : (xs ys : List ℕ) (n m : ℕ) → m ≡ length xs + n → take m (xs ++ ys) ≡ xs ++ take n ys
take-beyond [] ys n m e = let e' : m ≡ n = omega arith in rw e' refl
take-beyond (x ∷ xs) ys n zero e = absurd (omega arith)
take-beyond (x ∷ xs) ys n (suc m) e = ap (λ t. x ∷ t) (take-beyond xs ys n m (omega arith))

module _ {W : Type 0} where
  -- The writer and the buffer together have the complete frames, and one more frame is lost.
  abbrev pub OnlyFrames : OutputBuffer W → OutputBuffer W → Type 0
  OnlyFrames s s' =
      (stream s' ≡ s.sink ++ take s.frame_end s.committed) × (s'.frame_end ≡ length s'.committed)

  lost_frame-Moved :
      (k : ℕ) (s s' : OutputBuffer W) → IsBounded s → Moved k s s' → OnlyFrames s (lost_frame s')
  unfolding lost_frame
  lost_frame-Moved k s s' h m =
      let whole = ap length m.same_stream in
      let sizes = ap length m.rest in
      let l1 = length-append s.sink s.committed in
      let l2 = length-append s'.sink s'.committed in
      let l3 = length-drop k s.committed in
      let behind : ℕ = length s.sink + s.frame_end in
      (
        sym (
              take-beyond s'.sink s'.committed s'.frame_end behind
                (omega (arith, m.frames, m.inside)))
            ∙ ap (λ t. take behind t) m.same_stream
            ∙ take-beyond s.sink s.committed s.frame_end behind refl,
        omega (arith, m.frames, m.inside, length-take s'.frame_end s'.committed),
      )

  -- How a formatter's `reserve` ends for the worker.
  abbrev pub Recovered : OutputBuffer W → Call (OutputBuffer W) → Type 0
  Recovered s (done s') = stream s' ≡ stream s
  Recovered s (flush_error e s') = OnlyFrames s (lost_frame s')
  Recovered s (excessive_output_by_frame s') = OnlyFrames s (lost_frame s')
  Recovered s undefined = ⊥
  Recovered s (blocked s') = ⊥

module _ {W : Type 0} (write : W → List ℕ → WriteResult × W) where
  recover :
      (s : OutputBuffer W) (c : Call (OutputBuffer W))
      → IsBounded s
      → ReserveMoves write s c
      → Recovered s c
  unfolding lost_frame
  recover s (done s') h (k, m) = m.same_stream
  recover s (flush_error e s') h (k, m) = lost_frame-Moved k s s' h m
  recover s (excessive_output_by_frame s') h same =
      rw same (refl, omega (arith, length-take s.frame_end s.committed))
  recover s undefined h r = absurd r
  recover s (blocked s') h r = absurd r

  -- For a writer that takes all of the data or reports an error, policies that do not block, no
  -- callback, and a frame boundary within the committed bytes: a `reserve` that returns has lost no
  -- byte; after one that throws, `lost_frame` leaves exactly the complete frames, in order, partly
  -- with the writer and partly in the buffer, and nothing of the current frame.
  pub reserve-lost_frame :
      (fuel size : ℕ) (s : OutputBuffer W)
      → IsWriter write
      → IsBounded s
      → DoesNotBlock s
      → Recovered s (reserve write none (suc (suc fuel)) size s)
  reserve-lost_frame fuel size s lawful h p =
      recover s (reserve write none (suc (suc fuel)) size s) h
        (reserve-moves write fuel size s lawful h p)
