-- ===== src/InputBuffer.antt =====
-- reckless/src/thread_input_buffer.cpp and reckless/include/reckless/detail/thread_input_buffer.hpp:
-- the circular buffer through which a thread hands its input frames to the output worker.
pub mod Frames
pub mod Allocate
pub mod Consume
pub mod Bounds
pub mod Revert
use reckless.Prelude.{
  ℕ, ◌+◌, ◌-◌, ◌*◌, ◌/◌, ◌%◌, ◌^◌, Bool, true, false, ◌&&◌, not, Option, none, some, ltb, leb, ◌==◌,
  if◌then◌else◌,
}

-- `alignof(formatter_dispatch_function_t*)`, and the same size, on the 64-bit targets.
abbrev pub frame_alignment : ℕ
frame_alignment = 8

-- `(size + mask) & ~mask`.
abbrev pub align : ℕ → ℕ
align size = (size + (frame_alignment - 1)) % 2 ^ 64 / frame_alignment * frame_alignment

-- Pointers into the buffer are offsets from `buffer_start()`. `word p` is the dispatch pointer that
-- is found at `p`, with the arguments behind it; `none` is `WRAPAROUND_MARKER`.
pub record InputBuffer (F : Type 0) : Type 0 where
  pub size : ℕ
  pub input_start : ℕ
  pub input_end : ℕ
  pub word : ℕ → Option F
  pub input_consumed_flag : Bool

-- One round of the loop of `allocate_input_frame`: the frame's place, or that the thread has to
-- wait until the worker has consumed some input.
pub data Attempt (F : Type 0) : Type 0 where
  allocated : ℕ → InputBuffer F → Attempt F
  wait_input_consumed : Attempt F

module _ {F : Type 0} where
  -- The constructor.
  unfoldable pub create : (ℕ → Option F) → ℕ → InputBuffer F
  create raw size = record {
    size = size;
    input_start = 0;
    input_end = 0;
    word = raw;
    input_consumed_flag = false;
  }

  -- `advance_frame_pointer`.
  unfoldable pub advance : InputBuffer F → ℕ → ℕ → ℕ
  advance b p distance = if b.size - (p + distance) == 0 then 0 else p + distance

  -- The bytes from `p` to `p + n` are overwritten with `raw`.
  unfoldable pub store : ℕ → ℕ → (ℕ → Option F) → InputBuffer F → InputBuffer F
  store p n raw b = record b { word = λ q. if leb p q && ltb q (p + n) then raw q else b.word q }

  unfoldable pub write_marker : InputBuffer F → InputBuffer F
  write_marker b = store b.input_end frame_alignment (λ q. none) b

  unfoldable pub try_allocate : InputBuffer F → ℕ → Attempt F
  unfolding write_marker
  try_allocate b requested =
      let size = align requested in
      if b.input_start == b.input_end
      then allocated 0 (record b { input_start = 0; input_end = advance b 0 size })
      else if ltb b.input_end b.input_start
      then (if ltb size (b.input_start - b.input_end)
          then allocated b.input_end (record b { input_end = advance b b.input_end size })
          else wait_input_consumed)
      else if ltb size (b.size - b.input_end)
      then allocated b.input_end (record b { input_end = advance b b.input_end size })
      else if ltb size b.input_start
      then allocated 0 (record (write_marker b) { input_end = advance b 0 size })
      else wait_input_consumed

  unfoldable pub revert_allocation : ℕ → InputBuffer F → InputBuffer F
  revert_allocation marker b = record b { input_end = marker }

  unfoldable pub discard_input_frame : ℕ → InputBuffer F → InputBuffer F
  discard_input_frame size b = record b { input_start = advance b b.input_start (align size) }

  unfoldable pub wraparound : InputBuffer F → InputBuffer F
  wraparound b = record b { input_start = 0 }

  -- The head of the worker's loop over a buffer: the frame at the start, behind the marker if the
  -- marker is there.
  unfoldable pub next_frame : InputBuffer F → Option F × InputBuffer F
  next_frame b = elim (b.word b.input_start) [
    | some f ↦ (some f, b)
    | none ↦ ((wraparound b).word 0, wraparound b)
  ]
