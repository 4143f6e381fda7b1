-- ===== src/OutputBuffer/Overrun.antt =====
-- Where `flush` and `write` of reckless/src/output_buffer.cpp go past the bytes that they mean.
use reckless.Prelude.{
  ℕ, suc, ◌+◌, ◌≤◌, ◌<◌, ◌≡◌, List, ◌++◌, Option, some, arith, ◌∙◌, length, take, drop, length-take,
  length-drop, ltb, Bool-cases, inl, inr, false, true,
}
use reckless.Errors.{ErrorCode, is_temporary}
use reckless.OutputBuffer.{
  OutputBuffer, block, WriteResult, wrote, done, undefined, again, capacity, commit, discard,
  on_error, after_write, flush_round, flush_loop, flush, copy_in, write_loop, write_bytes,
}

not_ltb : (a b : ℕ) → b ≤ a → ltb a b ≡ false
not_ltb a b h = ground arith

is_ltb : (a b : ℕ) → a < b → ltb a b ≡ true
is_ltb a b h = ground arith

module _ {W : Type 0} (write : W → List ℕ → WriteResult × W)
    (callback : Option (Option ErrorCode → ℕ → OutputBuffer W → OutputBuffer W)) where
  -- Under the `block` policy, without a panic, and with the frame boundary within the committed
  -- bytes: if the writer fails with a temporary error after `n` bytes of the complete frames, the
  -- next round is for as many bytes as this one, though the complete frames have become shorter by
  -- `n`.
  pub flush_round-block :
      (s : OutputBuffer W) (n : ℕ) (e : ErrorCode) (w : W)
      → write s.writer (take s.frame_end (s.committed ++ s.stale)) ≡ (wrote n (some e), w)
      → is_temporary e ≡ true
      → s.temporary_error_policy ≡ block
      → s.panic_flush ≡ false
      → s.frame_end ≤ length s.committed
      → n ≤ s.frame_end
      → (s' : OutputBuffer W) × (flush_round write callback s.frame_end s ≡ again s.frame_end s')
        × (s'.frame_end + n ≡ s.frame_end)
        × (s'.temporary_error_policy ≡ block)
  unfolding flush_round after_write on_error discard
  flush_round-block s n e w result temporary policy calm bounded partial = (
    discard n (record s {
      writer = w;
      sink = s.sink ++ take n (take s.frame_end (s.committed ++ s.stale));
    }),
    simp (result, not_ltb (length s.committed) n (omega arith), temporary, policy, calm),
    omega arith,
    policy,
  )

module _ {W : Type 0} (write : W → List ℕ → WriteResult × W)
    (callback : Option (Option ErrorCode → ℕ → OutputBuffer W → OutputBuffer W)) where
  copy_in-fits :
      (bytes : List ℕ) (s : OutputBuffer W)
      → length bytes ≤ length s.stale
      → copy_in write callback bytes s ≡ done (commit bytes s)
  unfolding copy_in
  copy_in-fits bytes s h = rw (not_ltb (length s.stale) (length bytes) h)

  copy_in-overflow :
      (bytes : List ℕ) (s : OutputBuffer W)
      → length s.stale < length bytes
      → copy_in write callback bytes s ≡ undefined
  unfolding copy_in
  copy_in-overflow bytes s h = rw (is_ltb (length s.stale) (length bytes) h)

  -- A full buffer that cannot be emptied is overrun by the next piece.
  write_loop-full :
      (fuel rounds available : ℕ) (input : List ℕ) (s : OutputBuffer W)
      → length s.stale ≡ 0
      → 0 < length input
      → 0 < available
      → write_loop write callback fuel (suc rounds) available input s ≡ undefined
  unfolding write_loop
  write_loop-full fuel rounds available input s full some_left room =
      elim (Bool-cases (ltb available (length input))) [
        | inl more ↦ rw (
          more,
          copy_in-overflow (take available input) s
              (omega (arith, length-take available input, full)),
        )
        | inr last ↦ rw (last, copy_in-overflow input s (omega (arith, full)))
      ]

  write_loop-more :
      (fuel rounds available : ℕ) (input : List ℕ) (s s1 s2 : OutputBuffer W)
      → available < length input
      → copy_in write callback (take available input) s ≡ done s1
      → flush write callback fuel s1 ≡ done s2
      → write_loop write callback fuel (suc rounds) available input s
        ≡ write_loop write callback fuel rounds (capacity s) (drop available input) s2
  unfolding write_loop
  write_loop-more fuel rounds available input s s1 s2 long copied flushed =
      rw (is_ltb available (length input) long, copied, flushed)

  flush-no_frame :
      (fuel : ℕ) (s : OutputBuffer W) → s.frame_end ≡ 0 → flush write callback (suc fuel) s ≡ done s
  unfolding flush flush_loop
  flush-no_frame fuel s e = simp e

  -- If no frame is complete, the buffer is not of size 0, and there are more bytes than room,
  -- `output_buffer::write` with two rounds of its loop accesses memory outside of the buffer.
  pub write_bytes-overrun :
      (fuel rounds : ℕ) (input : List ℕ) (s : OutputBuffer W)
      → s.frame_end ≡ 0
      → 0 < capacity s
      → length s.stale < length input
      → write_bytes write callback (suc fuel) (suc (suc rounds)) input s ≡ undefined
  unfolding write_bytes commit
  write_bytes-overrun fuel rounds input s no_frame room long =
      let first = take (length s.stale) input in
      write_loop-more (suc fuel) (suc rounds) (length s.stale) input s (commit first s)
        (commit first s) long
        (copy_in-fits first s (omega (arith, length-take (length s.stale) input)))
        (flush-no_frame fuel (commit first s) no_frame)
      ∙ write_loop-full (suc fuel) rounds (capacity s) (drop (length s.stale) input)
          (commit first s)
          (omega (arith, length-drop (length first) s.stale, length-take (length s.stale) input))
          (omega (arith, length-drop (length s.stale) input)) room
