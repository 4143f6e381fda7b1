-- ===== src/Tests/Runs.antt =====
-- Runs of the threads of reckless/src/basic_log.cpp: one frame is written, sent and formatted, and the
-- log is closed.
use reckless.Prelude.{
  ℕ, ◌≡◌, refl, arith, List, [], ◌∷◌, ◌++◌, Option, none, some, length, if◌then◌else◌, Bool-cases,
  inl, inr, false, replicate, ltb,
}
use reckless.InputBuffer.{create, try_allocate, store, advance, discard_input_frame}
use reckless.Output.{Outcome}
use reckless.OutputBuffer.{
  reset, OutputBuffer, WriteResult, wrote, ignore, fail_immediately, commit, frame_end, flush,
  flush_loop, flush_round, after_write, on_success, discard, has_complete_frame,
}
use reckless.OutputBuffer.Framed.{FormatError}
use reckless.Log.{
  Extent, Queue, fetch, output_frame, after_format, flush_output_buffer, flush_frames,
}
use reckless.Log.System.{
  System, History, noted, Sender, ready, sending, unchecked, not_panicking, cleared, starting,
  processing, returned, polling, running, update, touch, after_frame, at_start, IsOpened, opened,
  write_frame, pass_halt, pass_error, send, close, take_extent, take_terminator, process, finish,
}
use reckless.Log.System as Run
use reckless.OutputBuffer.{reserve}
use reckless.OutputBuffer.Emit.{emit_call, filled}

-- A queue of at most four extents.
unfoldable pub four_extents : Queue
four_extents = record {
  State = List Extent;
  contents = λ q. q;
  push = λ e q. if ltb (length q) 4 then some (q ++ e ∷ []) else none;
  pop = pop_first;
  contents-push = λ e q {q'} h. push_lem e q h;
  contents-pop = λ q {e} {q'} h. pop_lem q h;
  pop_empty = pop_none;
}
  where
    pop_first : List Extent → Option (Extent × List Extent)
    pop_first [] = none
    pop_first (e ∷ q) = some (e, q)

    push_lem :
        (e : Extent) (q : List Extent) {q' : List Extent}
        → (if ltb (length q) 4 then some (q ++ e ∷ []) else none) ≡ some q'
        → q' ≡ q ++ e ∷ []
    push_lem e q h = elim (Bool-cases (ltb (length q) 4)) [
      | inl room ↦ let k = rw room at h in cc
      | inr full ↦ let k = rw full at h in cc
    ]

    pop_lem :
        (q : List Extent) {e : Extent} {q' : List Extent} → pop_first q ≡ some (e, q') → q ≡ e ∷ q'
    pop_lem [] h = cc
    pop_lem (d ∷ q) h = cc

    pop_none : (q : List Extent) → pop_first q ≡ none → q ≡ []
    pop_none [] h = refl
    pop_none (d ∷ q) h = cc

abbrev pub frame_size : ℕ → ℕ
frame_size f = 16

-- A writer that takes all it is given.
abbrev pub take_all : Unit {0} → List ℕ → WriteResult × Unit {0}
take_all w d = (wrote (length d) none, tt)

-- The formatter of a frame writes one byte.
abbrev pub dispatch :
    ℕ → OutputBuffer (Unit {0}) → Outcome FormatError (OutputBuffer (Unit {0})) (Unit {0})
dispatch f s = Outcome.done tt (commit (f ∷ []) s)

unfoldable pub format : ℕ → OutputBuffer (Unit {0}) → Option (OutputBuffer (Unit {0}))
format = output_frame dispatch (λ f s. s)

unfoldable pub new_log : System ℕ (Unit {0}) four_extents
unfolding four_extents
new_log = record {
  buffers = λ i. create (λ p. none) 64;
  senders = λ i. ready;
  checks = λ i. unchecked;
  queue = [];
  output = record {
    writer = tt;
    sink = [];
    committed = [];
    stale = replicate 8 0;
    frame_end = 0;
    lost_input_frames = 0;
    initial_error = none;
    error_code = none;
    error_flag = false;
    panic_flush = false;
    temporary_error_policy = ignore;
    permanent_error_policy = fail_immediately;
  };
  worker = starting;
  touched = [];
  panic_flush = false;
  life = running;
}

abbrev pub Format : Type 0
Format = ℕ → OutputBuffer (Unit {0}) → Option (OutputBuffer (Unit {0}))

-- A run so far.
pub record Ran (fm : Format) : Type 1 where
  pub history : History ℕ
  pub log : System ℕ (Unit {0}) four_extents
  pub reach : Run.Reach four_extents frame_size take_all none fm new_log history log

unfoldable pub next :
    {fm : Format} (r : Ran fm) {a : Run.Action ℕ} {l : System ℕ (Unit {0}) four_extents}
    → Run.Step four_extents frame_size take_all none fm r.log a l
    → Ran fm
next r {a} {l} step = record {
  history = noted a r.history;
  log = l;
  reach = Run.later r.reach step;
}

-- A thread writes and sends a frame, and the worker takes its extent.
unfoldable pub written : (fm : Format) → Ran fm
unfolding four_extents new_log create try_allocate advance reset
written fm =
    next
      (record {
        history = record { sent = []; formatted = []; refused = 0 };
        log = new_log;
        reach = Run.start (
            opened 64 (λ i p. none) tt (replicate 8 0) new_log.output (omega arith) refl refl refl
              refl refl refl refl);
      })
      (write_frame 0 7 (λ p. some 7) refl (omega arith) (omega arith) refl refl)

unfoldable pub taken : (fm : Format) → Ran fm
unfolding written next four_extents new_log update store create try_allocate advance
taken fm =
    next
      (next (next (next (written fm) (pass_halt 0 refl refl refl)) (pass_error 0 refl refl))
        (send 0 refl refl refl refl))
      (take_extent at_start refl)

-- The worker finds the frame and formats it, and the log is closed.
unfoldable pub processed : Ran format
unfolding taken written next four_extents new_log update store create try_allocate advance fetch
    format output_frame after_format commit after_frame
processed = next (next (taken format) (process refl (omega arith) refl refl)) (close refl refl)

unfoldable pub finished : Ran format
unfolding processed taken written next four_extents new_log update store create try_allocate advance
    fetch format output_frame after_format commit after_frame touch discard_input_frame
finished = next processed (finish refl refl)

unfoldable pub ended_run : Ran format
unfolding finished processed taken written next four_extents new_log update store create
    try_allocate advance fetch format output_frame after_format commit after_frame touch
    discard_input_frame flush_frames has_complete_frame flush_output_buffer flush flush_loop
    flush_round after_write on_success discard frame_end
ended_run = next finished (take_terminator 0 at_start refl refl)

-- The same run with a formatter that reserves room and commits its byte.
unfoldable pub emit_format : Format
emit_format = output_frame (λ f s. emit_call take_all 1 (λ mem. f ∷ []) s) (λ f s. s)

unfoldable pub emitted : Ran emit_format
unfolding taken written next four_extents new_log update store create try_allocate advance fetch
    emit_format output_frame after_format commit after_frame emit_call filled reserve
    discard_input_frame
emitted =
    next (next (next (taken emit_format) (process refl (omega arith) refl refl)) (close refl refl))
      (finish refl refl)

unfoldable pub emitted_all : Ran emit_format
unfolding emitted taken written next four_extents new_log update store create try_allocate advance
    fetch emit_format output_frame after_format commit after_frame emit_call filled reserve touch
    discard_input_frame flush_frames has_complete_frame flush_output_buffer flush flush_loop
    flush_round after_write on_success discard frame_end
emitted_all = next emitted (take_terminator 0 at_start refl refl)
