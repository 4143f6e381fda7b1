-- ===== src/Log.antt =====
-- reckless/src/basic_log.cpp and reckless/include/reckless/basic_log.hpp: the threads that log, the
-- queue that they share, and the output worker.
pub mod Placed
pub mod System
pub mod Flights
pub mod Invariant
pub mod Steps
pub mod Order
pub mod Panic
pub mod Text
pub mod Close
pub mod Frame
pub mod Drained
pub mod Lines
pub mod Complete
use reckless.Prelude.{
  ℕ, suc, ◌+◌, ◌-◌, ◌/◌, ◌*◌, ◌%◌, ◌^◌, ◌≡◌, Bool, true, false, List, [], ◌∷◌, ◌++◌, Option, none,
  some, ◌==◌, if◌then◌else◌, max, min,
}
use reckless.InputBuffer.{InputBuffer, wraparound, discard_input_frame}
use reckless.Errors.{ErrorCode}
use reckless.Output.{Outcome}
use reckless.OutputBuffer.Framed.{
  FormatError, flush_failed, excessive_output, overrun, other_exception,
}
use reckless.OutputBuffer.{
  OutputBuffer, WriteResult, Call, done, flush_error, excessive_output_by_frame, undefined, blocked,
  frame_end, lost_frame, has_complete_frame, flush,
}

-- `commit_extent`: the input buffer of a thread with the place up to which it is committed, or the
-- null pointer by which the worker is told to end.
pub data Extent : Type 0 where
  extent : ℕ → ℕ → Extent
  terminator : Extent

-- The shared queue, which is a lock-free queue of fixed size out of another library: `push` fails
-- when it is full, and `pop` when it is empty.
pub record Queue : Type 1 where
  pub State : Type 0
  pub contents : State → List Extent
  pub push : Extent → State → Option State
  pub pop : State → Option (Extent × State)
  pub contents-push :
      (e : Extent) (q : State) {q' : State}
      → push e q ≡ some q'
      → contents q' ≡ contents q ++ e ∷ []
  pub contents-pop :
      (q : State) {e : Extent} {q' : State} → pop q ≡ some (e, q') → contents q ≡ e ∷ contents q'
  pub pop_empty : (q : State) → pop q ≡ none → contents q ≡ []

-- The sizes for which `open` takes 0 as a default; `page` is the page size and `extent_size` the
-- size of a `commit_extent`.
pub record Sizes : Type 0 where
  pub output_buffer_max_capacity : ℕ
  pub shared_input_queue_size : ℕ
  pub thread_input_buffer_size : ℕ

abbrev pub assumed_disk_sector_size : ℕ
assumed_disk_sector_size = 8192

pub open_sizes : ℕ → ℕ → Sizes → Sizes
open_sizes page extent_size s = record {
  output_buffer_max_capacity =
      if s.output_buffer_max_capacity == 0
      then assumed_disk_sector_size
      else s.output_buffer_max_capacity;
  shared_input_queue_size =
      if s.shared_input_queue_size == 0 then page / extent_size else s.shared_input_queue_size;
  thread_input_buffer_size =
      if s.thread_input_buffer_size == 0
      then assumed_disk_sector_size
      else s.thread_input_buffer_size;
}

-- The place of the arguments in a frame, and the size of the frame.
pub args_offset : ℕ → ℕ → ℕ
args_offset pointer_size args_align = (pointer_size + args_align - 1) / args_align * args_align

pub frame_size_of : ℕ → ℕ → ℕ → ℕ
frame_size_of pointer_size args_align args_size = args_offset pointer_size args_align + args_size

-- The wait between two polls of the queue, in milliseconds.
pub next_wait_time : ℕ → ℕ
next_wait_time t = min (t + max 1 (t / 4)) 1000

-- What the worker reads at its place `p`: the frame, behind the marker if the marker is there, and
-- the place of the frame.
unfoldable pub fetch : {F : Type 0} → ℕ → InputBuffer F → Option F × InputBuffer F
fetch p b = elim (b.word p) [ some f ↦ (some f, b) | none ↦ ((wraparound b).word 0, wraparound b) ]

-- The formatter that a frame names, with its arguments, and the callback for its exceptions, which
-- belong to the program that uses the library.
module _ {F W : Type 0}
    (dispatch : F → OutputBuffer W → Outcome FormatError (OutputBuffer W) (Unit {0}))
    (format_error_callback : F → OutputBuffer W → OutputBuffer W) where
  -- What the two `catch` clauses leave of the call of a formatter, and the watermark behind it.
  unfoldable pub after_format :
      F → Outcome FormatError (OutputBuffer W) (Unit {0}) → Option (OutputBuffer W)
  after_format f (Outcome.done a s) = some (frame_end s)
  after_format f (Outcome.threw (flush_failed e) s) = some (frame_end (lost_frame s))
  after_format f (Outcome.threw excessive_output s) = some (frame_end (format_error_callback f s))
  after_format f (Outcome.threw other_exception s) = some (frame_end (format_error_callback f s))
  after_format f (Outcome.threw overrun s) = none
  after_format f (Outcome.blocked s) = none

  -- The output of one frame; `none` if the formatter does not return or is
  -- undefined.
  unfoldable pub output_frame : F → OutputBuffer W → Option (OutputBuffer W)
  output_frame f s = after_format f (dispatch f s)

module _ {W : Type 0} (write : W → List ℕ → WriteResult × W)
    (callback : Option (Option ErrorCode → ℕ → OutputBuffer W → OutputBuffer W)) where
  -- `flush_output_buffer`.
  unfoldable pub flush_output_buffer : ℕ → OutputBuffer W → Call (OutputBuffer W)
  flush_output_buffer fuel s = elim (flush write callback fuel s) [
    | done s' ↦ done s'
    | flush_error e s' ↦ done s'
    | excessive_output_by_frame s' ↦ excessive_output_by_frame s'
    | undefined ↦ undefined
    | blocked s' ↦ blocked s'
  ]

  -- `if(has_complete_frame()) flush_output_buffer();`
  unfoldable pub flush_frames : ℕ → OutputBuffer W → Call (OutputBuffer W)
  flush_frames fuel s = if has_complete_frame s then flush_output_buffer fuel s else done s

  -- The formatter that `basic_log::flush` sends through the queue: `*perror`, and the buffer.
  pub flush_formatter : ℕ → OutputBuffer W → Call (Option ErrorCode × OutputBuffer W)
  flush_formatter fuel s =
      let flushed : Call (Option ErrorCode × OutputBuffer W) = elim (flush write callback fuel s) [
        | done s' ↦ done (none, s')
        | flush_error e s' ↦ done (some e, s')
        | excessive_output_by_frame s' ↦ excessive_output_by_frame (none, s')
        | undefined ↦ undefined
        | blocked s' ↦ blocked (none, s')
      ] in
      if has_complete_frame s then flushed else done (none, s)
