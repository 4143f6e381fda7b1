-- ===== src/InputBuffer/Revert.antt =====
-- `revert_allocation`: the last allocation is taken back.
use reckless.Prelude.{
  ℕ, ◌-◌, ◌<◌, ◌≡◌, ◌≢◌, refl, List, ◌∷◌, ◌++◌, Option, none, arith, ◌∙◌, ◌==◌, ltb, Bool-cases,
  inl, inr, false, true,
}
use reckless.InputBuffer.{
  InputBuffer, align, store, Attempt, allocated, wait_input_consumed, write_marker, try_allocate,
  frame_alignment, revert_allocation,
}
use reckless.InputBuffer.Frames.{Run, Holds, one_piece, two_pieces, Run-le, Run-store}
use reckless.InputBuffer.Allocate.{store-below, store-above}

-- The buffer after the frame was allocated and written, and the allocation reverted.
pub data Reverted {F : Type 0} (frame_size : F → ℕ) (k marker : ℕ) (raw : ℕ → ℕ → Option F)
    (fs : List F) : Attempt F → Type 0 where
  reverted :
      {p : ℕ} {b' : InputBuffer F}
      → Holds frame_size (revert_allocation marker (store p (align k) (raw p) b')) fs
      → Reverted frame_size k marker raw fs (allocated p b')
  waits : Reverted frame_size k marker raw fs wait_input_consumed

module _ {F : Type 0} (frame_size : F → ℕ) (k : ℕ) (raw : ℕ → ℕ → Option F) (b : InputBuffer F)
    (ne : b.input_start ≢ b.input_end) where
  abbrev n : ℕ
  n = align k

  one_piece-Reverted :
      (fs : List F)
      → Run frame_size b.word b.input_end b.input_start fs
      → b.input_end < b.size
      → Reverted frame_size k b.input_end raw fs (try_allocate b k)
  unfolding try_allocate store revert_allocation write_marker
  one_piece-Reverted fs r fits =
      rw (not_same, not_below)
        (elim (Bool-cases (ltb n (b.size - b.input_end))) [
          | inl room ↦ rw room (
              reverted (
                one_piece
                  (Run-store frame_size (λ q l u. store-below b.input_end n q (raw b.input_end) b u)
                    r)
                  fits))
          | inr no_room ↦ rw no_room (elim (Bool-cases (ltb n b.input_start)) [
            | inl room' ↦ rw room' (
                reverted (
                  one_piece
                    (Run-store frame_size
                      (λ q l u.
                        store-above 0 n q (raw 0) (write_marker b) (ground arith)
                        ∙ store-below b.input_end frame_alignment q (λ q'. none) b u)
                      r)
                    fits))
            | inr full ↦ rw full waits
          ])
        ])
    where
      not_same : (b.input_start == b.input_end) ≡ false
      not_same = ground arith

      not_below : ltb b.input_end b.input_start ≡ false
      not_below = ground (arith, Run-le frame_size r)

  two_pieces-Reverted :
      (m : ℕ) (first : List F) (g : F) (second : List F)
      → Run frame_size b.word m b.input_start first
      → Run frame_size b.word b.input_end 0 (g ∷ second)
      → b.word m ≡ none
      → m < b.size
      → b.input_end < b.input_start
      → Reverted frame_size k b.input_end raw (first ++ (g ∷ second)) (try_allocate b k)
  unfolding try_allocate store revert_allocation
  two_pieces-Reverted m first g second r1 r2 mark fits order =
      rw (not_same, below)
        (elim (Bool-cases (ltb n (b.input_start - b.input_end))) [
          | inl room ↦ rw room (
              reverted (
                two_pieces m first g second
                  (Run-store frame_size
                    (λ q l u. store-above b.input_end n q (raw b.input_end) b (ground arith)) r1)
                  (Run-store frame_size (λ q l u. store-below b.input_end n q (raw b.input_end) b u)
                    r2)
                  (store-above b.input_end n m (raw b.input_end) b
                      (ground (arith, Run-le frame_size r1))
                    ∙ mark)
                  fits order refl))
          | inr full ↦ rw full waits
        ])
    where
      not_same : (b.input_start == b.input_end) ≡ false
      not_same = ground arith

      below : ltb b.input_end b.input_start ≡ true
      below = ground arith

  -- For a buffer that holds `fs` and whose start and end differ: an allocation that is reverted to
  -- the end that the buffer had before leaves the buffer holding `fs`, whatever was written to the
  -- allocated place.
  pub revert_allocation-Reverted :
      (fs : List F)
      → Holds frame_size b fs
      → Reverted frame_size k b.input_end raw fs (try_allocate b k)
  revert_allocation-Reverted fs (one_piece r fits) = one_piece-Reverted fs r fits
  revert_allocation-Reverted fs (two_pieces m first g second r1 r2 mark fits order e) =
      rw e (two_pieces-Reverted m first g second r1 r2 mark fits order)

module _ {F : Type 0} (b : InputBuffer F) (k p : ℕ) (b' : InputBuffer F) (w : ℕ → Option F) where
  -- For a buffer whose start and end are equal and not 0, an allocation that is reverted leaves the
  -- start at 0 and the end where it was before the allocation, so that the two differ.
  pub revert_allocation-empty :
      b.input_start ≡ b.input_end
      → 0 < b.input_end
      → try_allocate b k ≡ allocated p b'
      → let after = revert_allocation b.input_end (store p (align k) w b') in
        (after.input_start ≡ 0)
        × (after.input_end ≡ b.input_end)
        × (after.input_start ≢ after.input_end)
  unfolding try_allocate store revert_allocation write_marker
  revert_allocation-empty same positive e = ground arith
