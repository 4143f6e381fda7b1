-- ===== src/InputBuffer/Bounds.antt =====
-- `allocate_input_frame` of reckless/src/thread_input_buffer.cpp stays inside the buffer.
use reckless.Prelude.{ℕ, ◌+◌, ◌-◌, ◌%◌, ◌≤◌, ◌<◌, ◌≡◌, arith}
use reckless.InputBuffer.{
  InputBuffer, align, advance, allocated, try_allocate, write_marker, frame_alignment, store,
}

-- The pointers of a buffer are multiples of the frame alignment below its size.
pub record IsAligned {F : Type 0} (b : InputBuffer F) : Type 0 where
  pub size_aligned : b.size % frame_alignment ≡ 0
  pub start_aligned : b.input_start % frame_alignment ≡ 0
  pub end_aligned : b.input_end % frame_alignment ≡ 0
  pub start_inside : b.input_start < b.size
  pub end_inside : b.input_end < b.size

module _ {F : Type 0} (b : InputBuffer F) (k : ℕ) where
  -- For a buffer whose size and pointers are multiples of the frame alignment, with the pointers
  -- inside, and a frame below its size less one: an allocation leaves the buffer so, the frame ends
  -- before the end of the buffer, and there is room for a marker at the old end of the input.
  pub try_allocate-IsAligned :
      (p : ℕ) (b' : InputBuffer F)
      → IsAligned b
      → align k < b.size - 1
      → try_allocate b k ≡ allocated p b'
      → IsAligned b' × (p + align k < b.size) × (b.input_end + frame_alignment ≤ b.size)
  unfolding try_allocate advance write_marker store
  try_allocate-IsAligned p b' a short e = ground arith
