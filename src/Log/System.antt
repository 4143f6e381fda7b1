-- ===== src/Log/System.antt =====
-- The threads of reckless/src/basic_log.cpp as one step relation: those that log, by `write` and
-- `send_log_entries` of basic_log.hpp, and `output_worker`. A step of a thread is what it does up to
-- its next access of the shared queue or of a shared input buffer, and memory is sequentially
-- consistent. A thread that waits for an event takes no step.
use reckless.Prelude.{
  ℕ, suc, ◌-◌, ◌<◌, ◌≡◌, ◌≢◌, Bool, true, false, ◌||◌, List, [], ◌∷◌, ◌++◌, Option, none, some,
  ◌==◌, if◌then◌else◌,
}
use reckless.InputBuffer.{
  InputBuffer, align, store, create, try_allocate, allocated, revert_allocation,
  discard_input_frame,
}
use reckless.Errors.{ErrorCode}
use reckless.OutputBuffer.{reset, OutputBuffer, WriteResult, done}
use reckless.Log.{extent, terminator, Queue, fetch, next_wait_time, flush_frames}

-- Where a thread that logs stands: outside of `write`, or with its frame written behind the marker
-- of the allocation and not yet sent.
pub data Sender (F : Type 0) : Type 0 where
  ready : Sender F
  sending : ℕ → F → Sender F

-- How far `send_log_entries` has come: `halt_on_panic_flush` has let the thread pass, and then the
-- test of `error_flag_`. Both are tests of their own, before the thread pushes.
pub data Checks : Type 0 where
  unchecked not_panicking cleared : Checks

-- Where the worker stands: before the first `pop`, in the loop that polls with its wait time, at a
-- place in the input buffer of a thread with the end of the extent, returned, or asleep after a
-- panic flush.
pub data Worker : Type 0 where
  starting : Worker
  polling : ℕ → Worker
  processing : ℕ → ℕ → ℕ → Worker
  returned halted : Worker

-- How far the life of the log has come: `close` has sent the terminator, the worker has taken it.
pub data Life : Type 0 where
  running closing ended : Life

pub record System (F W : Type 0) (q : Queue) : Type 0 where
  pub buffers : ℕ → InputBuffer F
  pub senders : ℕ → Sender F
  pub checks : ℕ → Checks
  pub queue : q.State
  pub output : OutputBuffer W
  pub worker : Worker
  pub touched : List ℕ
  pub panic_flush : Bool
  pub life : Life

-- What a step adds to the history: a frame that a thread has sent, one whose allocation `write`
-- reverted, or one whose formatter was called.
pub data Action (F : Type 0) : Type 0 where
  silent : Action F
  sends : ℕ → F → Action F
  refuses : Action F
  formats : ℕ → F → Action F

-- The frames with the threads that they come from, in the order in which they were sent and in the
-- order in which they were formatted, and the number of those
-- reverted.
pub record History (F : Type 0) : Type 0 where
  pub sent : List (ℕ × F)
  pub formatted : List (ℕ × F)
  pub refused : ℕ

unfoldable pub noted : {F : Type 0} → Action F → History F → History F
noted silent h = h
noted (sends i f) h = record h { sent = h.sent ++ (i, f) ∷ [] }
noted refuses h = record h { refused = suc h.refused }
noted (formats i f) h = record h { formatted = h.formatted ++ (i, f) ∷ [] }

unfoldable pub update {ℓ} : {A : Type ℓ} → ℕ → A → (ℕ → A) → ℕ → A
update i a f j = if i == j then a else f j

abbrev pub member : ℕ → List ℕ → Bool
member i [] = false
member i (j ∷ js) = (i == j) || member i js

-- `pinput_buffer->input_consumed_flag = false` for the buffers touched.
unfoldable pub clear_flags : {F : Type 0} → List ℕ → (ℕ → InputBuffer F) → ℕ → InputBuffer F
clear_flags touched bs i =
    if member i touched then record (bs i) { input_consumed_flag = false } else bs i

-- A buffer whose frame was processed is listed as touched, once, but not in a panic.
unfoldable pub touch : {F : Type 0} → Bool → ℕ → InputBuffer F → List ℕ → InputBuffer F × List ℕ
touch true i b touched = (b, touched)
touch false i b touched =
    if b.input_consumed_flag
    then (b, touched)
    else (record b { input_consumed_flag = true }, touched ++ i ∷ [])

-- The two places at which the worker pops.
pub data IsPopping : Worker → Type 0 where
  at_start : IsPopping starting
  at_poll : {t : ℕ} → IsPopping (polling t)

-- The end of a round of the loop over the frames of an extent.
unfoldable pub after_frame :
    {F W : Type 0} {q : Queue}
    → (F → ℕ)
    → ℕ
    → ℕ
    → F
    → InputBuffer F
    → OutputBuffer W
    → System F W q
    → System F W q
after_frame frame_size i e f b o l =
    let b' = discard_input_frame (frame_size f) b in
    let (b'', touched') = touch l.panic_flush i b' l.touched in
    record l {
      buffers = update i b'' l.buffers;
      touched = touched';
      output = o;
      worker = processing i b'.input_start e;
    }

module _ {F W : Type 0} (q : Queue) (frame_size : F → ℕ) (write : W → List ℕ → WriteResult × W)
    (callback : Option (Option ErrorCode → ℕ → OutputBuffer W → OutputBuffer W))
    (format : F → OutputBuffer W → Option (OutputBuffer W)) where
  pub data Step (l : System F W q) : Action F → System F W q → Type 0 where
    -- `write`: the frame is allocated, and its bytes are written, with the dispatch pointer first;
    -- the assertion of `allocate_input_frame` is that the frame is not too large.
    write_frame :
        (i : ℕ) (f : F) (raw : ℕ → Option F) {p : ℕ} {b : InputBuffer F}
        → l.senders i ≡ ready
        → 0 < align (frame_size f)
        → align (frame_size f) < (l.buffers i).size - 1
        → try_allocate (l.buffers i) (frame_size f) ≡ allocated p b
        → raw p ≡ some f
        → Step l silent (record l {
          buffers = update i (store p (align (frame_size f)) raw b) l.buffers;
          senders = update i (sending (l.buffers i).input_end f) l.senders;
        })
    -- `send_log_entries`: `halt_on_panic_flush` returns, the test of the error flag is passed, and
    -- the extent is pushed, whatever the flags are by then. The log is not closed yet.
    pass_halt :
        (i : ℕ) {marker : ℕ} {f : F}
        → l.senders i ≡ sending marker f
        → l.checks i ≡ unchecked
        → l.panic_flush ≡ false
        → Step l silent (record l { checks = update i not_panicking l.checks })
    pass_error :
        (i : ℕ)
        → l.checks i ≡ not_panicking
        → l.output.error_flag ≡ false
        → Step l silent (record l { checks = update i cleared l.checks })
    send :
        (i : ℕ) {marker : ℕ} {f : F} {s : q.State}
        → l.senders i ≡ sending marker f
        → l.checks i ≡ cleared
        → l.life ≡ running
        → q.push (extent i (l.buffers i).input_end) l.queue ≡ some s
        → Step l (sends i f) (record l {
          senders = update i ready l.senders;
          checks = update i unchecked l.checks;
          queue = s;
        })
    -- `send_log_entries` throws a writer error, and `write` reverts the allocation.
    refuse :
        (i : ℕ) {marker : ℕ} {f : F}
        → l.senders i ≡ sending marker f
        → l.checks i ≡ not_panicking
        → l.output.error_flag ≡ true
        → Step l refuses (record l {
          buffers = update i (revert_allocation marker (l.buffers i)) l.buffers;
          senders = update i ready l.senders;
          checks = update i unchecked l.checks;
        })
    -- The constructor of an argument throws, and `write` reverts the allocation.
    construct_throws :
        (i : ℕ) {marker : ℕ} {f : F}
        → l.senders i ≡ sending marker f
        → l.checks i ≡ unchecked
        → Step l refuses (record l {
          buffers = update i (revert_allocation marker (l.buffers i)) l.buffers;
          senders = update i ready l.senders;
        })
    -- `close` sends the terminator; `panic_flush` sets its flag.
    close :
        {s : q.State}
        → l.life ≡ running
        → q.push terminator l.queue ≡ some s
        → Step l silent (record l { queue = s; life = closing })
    panic : Step l silent (record l { panic_flush = true })
    -- The worker pops an extent, and reads the start of the input of its buffer.
    take_extent :
        {i e : ℕ} {s : q.State}
        → IsPopping l.worker
        → q.pop l.queue ≡ some (extent i e, s)
        → Step l silent (record l { queue = s; worker = processing i (l.buffers i).input_start e })
    -- The worker pops the terminator, flushes what is complete, and returns, or halts in a panic.
    take_terminator :
        (fuel : ℕ) {s : q.State} {o : OutputBuffer W}
        → IsPopping l.worker
        → q.pop l.queue ≡ some (terminator, s)
        → flush_frames write callback (suc (suc fuel)) l.output ≡ done o
        → Step l silent (record l {
          queue = s;
          output = o;
          worker = if l.panic_flush then halted else returned;
          life = ended;
        })
    -- The queue is empty in a panic: the worker flushes and halts.
    panic_done :
        (fuel : ℕ) {o : OutputBuffer W}
        → l.worker ≡ starting
        → q.pop l.queue ≡ none
        → l.panic_flush ≡ true
        → flush_frames write callback (suc (suc fuel)) l.output ≡ done o
        → Step l silent (record l { output = o; worker = halted })
    -- The queue is empty: the worker releases the buffers touched, flushes, and goes on to poll.
    idle :
        (fuel : ℕ) {o : OutputBuffer W}
        → l.worker ≡ starting
        → q.pop l.queue ≡ none
        → l.panic_flush ≡ false
        → flush_frames write callback (suc (suc fuel)) l.output ≡ done o
        → Step l silent (record l {
          buffers = clear_flags l.touched l.buffers;
          touched = [];
          output = o;
          worker = polling 0;
        })
    -- The queue is still empty after a wait.
    poll :
        (fuel : ℕ) {t : ℕ} {o : OutputBuffer W}
        → l.worker ≡ polling t
        → q.pop l.queue ≡ none
        → flush_frames write callback (suc (suc fuel)) l.output ≡ done o
        → Step l silent (record l { output = o; worker = polling (next_wait_time t) })
    -- One round of the loop over the frames of an extent.
    process :
        {i p e : ℕ} {f : F} {b : InputBuffer F} {o : OutputBuffer W}
        → l.worker ≡ processing i p e
        → p ≢ e
        → fetch p (l.buffers i) ≡ (some f, b)
        → format f l.output ≡ some o
        → Step l (formats i f) (after_frame frame_size i e f b o l)
    -- The end of the loop.
    finish :
        {i p e : ℕ}
        → l.worker ≡ processing i p e
        → p ≡ e
        → Step l silent (record l { worker = starting })

  -- A log that has just been opened, with an empty queue and with an input buffer for each thread.
  pub data IsOpened (l : System F W q) : Type 0 where
    opened :
        (size : ℕ) (raw : ℕ → ℕ → Option F) (w : W) (memory : List ℕ) (before : OutputBuffer W)
        → 0 < size
        → l.buffers ≡ (λ i. create (raw i) size)
        → l.senders ≡ (λ i. ready)
        → l.checks ≡ (λ i. unchecked)
        → q.contents l.queue ≡ []
        → l.worker ≡ starting
        → l.life ≡ running
        → l.output ≡ reset w memory before
        → IsOpened l

  -- The states that a log goes through from the one in which it was opened, with their history.
  pub data Reach (l0 : System F W q) : History F → System F W q → Type 0 where
    start : IsOpened l0 → Reach l0 (record { sent = []; formatted = []; refused = 0 }) l0
    later :
        {h : History F} {a : Action F} {l l' : System F W q}
        → Reach l0 h l
        → Step l a l'
        → Reach l0 (noted a h) l'
