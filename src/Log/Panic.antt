-- ===== src/Log/Panic.antt =====
-- `panic_flush` of reckless/src/basic_log.cpp, when the worker is in its loop over an empty queue.
use reckless.Prelude.{ℕ, ◌≡◌, refl, sym, ◌∙◌, List, [], Option, true}
use reckless.Errors.{ErrorCode}
use reckless.OutputBuffer.{OutputBuffer, WriteResult}
use reckless.Log.{Queue, next_wait_time}
use reckless.Log.System.{
  System, Action, unchecked, polling, running, Step, after_frame, write_frame, pass_halt,
  pass_error, send, refuse, construct_throws, close, panic, take_extent, take_terminator,
  panic_done, idle, poll, process, finish,
}

module _ {F W : Type 0} (q : Queue) (frame_size : F → ℕ) (write : W → List ℕ → WriteResult × W)
    (callback : Option (Option ErrorCode → ℕ → OutputBuffer W → OutputBuffer W))
    (format : F → OutputBuffer W → Option (OutputBuffer W)) where
  -- Any number of steps.
  pub data Steps (l : System F W q) : System F W q → Type 0 where
    no_step : Steps l l
    one_more :
        {l' l'' : System F W q} {a : Action F}
        → Steps l l'
        → Step q frame_size write callback format l' a l''
        → Steps l l''

  -- The worker polls an empty queue in a panic, and no thread is past `halt_on_panic_flush`.
  pub record PollsInPanic (l : System F W q) : Type 0 where
    pub wait_time : ℕ
    pub polls : l.worker ≡ polling wait_time
    pub panics : l.panic_flush ≡ true
    pub empty : q.contents l.queue ≡ []
    pub none_past : (i : ℕ) → l.checks i ≡ unchecked

  Step-PollsInPanic :
      {l l' : System F W q} {a : Action F}
      → Step q frame_size write callback format l a l'
      → (l.life ≡ running → PollsInPanic l)
      → l'.life ≡ running
      → PollsInPanic l'
  unfolding after_frame
  Step-PollsInPanic (write_frame i f raw is_ready positive short e header) h run =
      let s = h run in
      record {
        wait_time = s.wait_time;
        polls = s.polls;
        panics = s.panics;
        empty = s.empty;
        none_past = s.none_past;
      }
  Step-PollsInPanic (pass_halt i e before calm) h run = let p = (h run).panics in cc
  Step-PollsInPanic (pass_error i before fine) h run = let p = (h run).none_past i in cc
  Step-PollsInPanic (send i e passed life pushes) h run = let p = (h run).none_past i in cc
  Step-PollsInPanic (refuse i e passed error) h run = let p = (h run).none_past i in cc
  Step-PollsInPanic (construct_throws i e before) h run =
      let s = h run in
      record {
        wait_time = s.wait_time;
        polls = s.polls;
        panics = s.panics;
        empty = s.empty;
        none_past = s.none_past;
      }
  Step-PollsInPanic (close life pushes) h run = cc
  Step-PollsInPanic panic h run =
      let s = h run in
      record {
        wait_time = s.wait_time;
        polls = s.polls;
        panics = refl;
        empty = s.empty;
        none_past = s.none_past;
      }
  Step-PollsInPanic {l = l} (take_extent popping pops) h run =
      let p = sym (q.contents-pop l.queue pops) ∙ (h run).empty in cc
  Step-PollsInPanic (take_terminator fuel popping pops flushes) h run = cc
  Step-PollsInPanic (panic_done fuel worker pops panicking flushes) h run =
      let p = (h run).polls in cc
  Step-PollsInPanic (idle fuel worker pops panicking flushes) h run = let p = (h run).polls in cc
  Step-PollsInPanic (poll fuel {t = t} worker pops flushes) h run =
      let s = h run in
      record {
        wait_time = next_wait_time t;
        polls = refl;
        panics = s.panics;
        empty = s.empty;
        none_past = s.none_past;
      }
  Step-PollsInPanic (process worker ne found formatted) h run = let p = (h run).polls in cc
  Step-PollsInPanic (finish worker at_end) h run = let p = (h run).polls in cc

  -- From a state in which the worker polls the empty queue, `panic_flush` has set its flag and no
  -- thread is past `halt_on_panic_flush` in `send_log_entries`, all steps lead to such a state again as long as the log is not closed: the worker does not get to
  -- the end of the panic flush, for which the caller waits.
  pub panic_flush-polls :
      {l l' : System F W q} → PollsInPanic l → Steps l l' → l'.life ≡ running → PollsInPanic l'
  panic_flush-polls s no_step run = s
  panic_flush-polls s (one_more before step) run =
      Step-PollsInPanic step (panic_flush-polls s before) run
