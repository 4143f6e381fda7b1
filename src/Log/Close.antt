-- ===== src/Log/Close.antt =====
-- `close` waits for the worker to return: the worker, by its own steps, comes to the terminator.
use reckless.Prelude.{
  ℕ, zero, suc, ◌≤◌, ◌≡◌, ◌≢◌, refl, sym, ap, ◌∙◌, arith, List, [], ◌∷◌, ◌++◌, Option, none, some,
  length, Option-cases, false, Bool-cases, inl, inr, ◌==◌, ==_iff,
}
use reckless.OutputBuffer.{
  OutputBuffer, WriteResult, Call, done, flush_error, excessive_output_by_frame, undefined, blocked,
  flush, has_complete_frame,
}
use reckless.OutputBuffer.Flush.{IsWriter, Flushed, flush-Flushed}
use reckless.Log.{Extent, extent, terminator, Queue, flush_frames, flush_output_buffer}
use reckless.Log.System.{
  System, Action, History, noted, Worker, starting, polling, processing, returned, halted, closing,
  after_frame, IsPopping, at_start, at_poll, Step, Reach, write_frame, pass_halt, pass_error, send,
  refuse, construct_throws, close, panic, take_extent, take_terminator, panic_done, idle, poll,
  process, finish,
}
use reckless.Log.Flights.{Flight, extents, AtWork-popping}
use reckless.Log.Steps.{IsOrdered, Step-IsOrdered, Reach-IsOrdered, oldest-Fetched}
use reckless.Log.Text.{IsOrderly, IsOrderly-IsBounded}

module _ {W : Type 0} (write : W → List ℕ → WriteResult × W) (lawful : IsWriter write) where
  Flushed-done :
      (s : OutputBuffer W) (c : Call (OutputBuffer W))
      → Flushed s c
      → (o : OutputBuffer W) × ((elim c [
        | done s' ↦ done s'
        | flush_error e s' ↦ done s'
        | excessive_output_by_frame s' ↦ excessive_output_by_frame s'
        | undefined ↦ undefined
        | blocked s' ↦ blocked s'
      ])
          ≡ done o)
  Flushed-done s (done s') m = (s', refl)
  Flushed-done s (flush_error e s') m = (s', refl)
  Flushed-done s (excessive_output_by_frame s') m = absurd m
  Flushed-done s undefined m = absurd m
  Flushed-done s (blocked s') m = absurd m

  flush_frames-done :
      (s : OutputBuffer W)
      → IsOrderly s
      → (o : OutputBuffer W) × (flush_frames write none 2 s ≡ done o)
  unfolding flush_frames flush_output_buffer
  flush_frames-done s h = elim (Bool-cases (has_complete_frame s)) [
    | inl some_frame ↦ simp some_frame (
        Flushed-done s (flush write none 2 s)
          (flush-Flushed write 0 s lawful (IsOrderly-IsBounded s h) h.quiet))
    | inr no_frame ↦ simp no_frame (s, refl)
  ]

-- Each formatter returns, and leaves the buffer orderly.
module _ {F W : Type 0} (q : Queue) (frame_size : F → ℕ) (write : W → List ℕ → WriteResult × W)
    (format : F → OutputBuffer W → Option (OutputBuffer W)) (lawful : IsWriter write)
    (returns : (f : F) (s : OutputBuffer W)
      → IsOrderly s
      → (o : OutputBuffer W) × (format f s ≡ some o) × IsOrderly o) where
  -- The steps of the worker.
  abbrev ByWorker :
      {l l' : System F W q} {a : Action F} → Step q frame_size write none format l a l' → Type 0
  ByWorker (write_frame i f raw is_ready positive short e header) = ⊥
  ByWorker (pass_halt i e before calm) = ⊥
  ByWorker (pass_error i before fine) = ⊥
  ByWorker (send i e passed life pushes) = ⊥
  ByWorker (refuse i e passed error) = ⊥
  ByWorker (construct_throws i e before) = ⊥
  ByWorker (close life pushes) = ⊥
  ByWorker panic = ⊥
  ByWorker (take_extent popping pops) = Unit
  ByWorker (take_terminator fuel popping pops flushes) = Unit
  ByWorker (panic_done fuel worker pops panicking flushes) = Unit
  ByWorker (idle fuel worker pops panicking flushes) = Unit
  ByWorker (poll fuel worker pops flushes) = Unit
  ByWorker (process worker ne found formatted) = Unit
  ByWorker (finish worker at_end) = Unit

  -- Any number of steps of the worker.
  pub data WorkerRun : System F W q → System F W q → Type 0 where
    rest : {l : System F W q} → WorkerRun l l
    first :
        {l l' l'' : System F W q} {a : Action F} (step : Step q frame_size write none format l a l')
        → ByWorker step
        → WorkerRun l' l''
        → WorkerRun l l''

  -- The log is closed without a panic, and in order.
  record IsClosing (h : History F) (l : System F W q) : Type 0 where
    calm : l.panic_flush ≡ false
    life : l.life ≡ closing
    none_refused : h.refused ≡ 0
    orderly : IsOrderly l.output
    ordered : IsOrdered q frame_size h l

  abbrev Returns : System F W q → Type 0
  Returns l = (l' : System F W q) × WorkerRun l l' × (l'.worker ≡ returned)

  -- To go on behind some steps.
  after_step :
      {l l' : System F W q} {a : Action F} (step : Step q frame_size write none format l a l')
      → ByWorker step
      → Returns l'
      → Returns l
  after_step step own (l', run, e) = (l', first step own run, e)

  -- From where the worker pops, with so many extents in the queue.
  Drains : ℕ → Type 0
  Drains n =
      (h : History F) (l : System F W q)
      → length (q.contents l.queue) ≤ n
      → IsClosing h l
      → IsPopping l.worker
      → Returns l

  finish_extent :
      (n : ℕ) (h : History F) (l : System F W q) (i p e : ℕ)
      → Drains n
      → length (q.contents l.queue) ≤ n
      → IsClosing h l
      → l.worker ≡ processing i p e
      → p ≡ e
      → Returns l
  unfolding Drains noted
  finish_extent n h l i p e drains few c worker at_end =
      let step = finish worker at_end in
      after_step step tt (
        drains h (record l { worker = starting }) few
          (record {
            calm = c.calm;
            life = c.life;
            none_refused = c.none_refused;
            orderly = c.orderly;
            ordered =
                Step-IsOrdered q frame_size write none format {h = h} step c.none_refused c.ordered;
          })
          at_start)

  process_extent :
      (n : ℕ) (h : History F) (l : System F W q) (i p e : ℕ)
      → Drains n
      → length (q.contents l.queue) ≤ n
      → IsClosing h l
      → l.worker ≡ processing i p e
      → Returns l
  unfolding noted after_frame
  process_extent n h l i p e drains few c worker = elim (Bool-cases (p == e)) [
    | inl same ↦ finish_extent n h l i p e drains few c worker ((==_iff p e).0 same)
    | inr differs ↦
        let ne : p ≢ e = λ same. cc (differs, (==_iff p e).1 same) in
        elim (rw worker at c.ordered.at_work) [
          | inl (at_end, c') ↦ absurd (ne at_end)
          | inr (f, others, at, oldest, c') ↦
              let it =
                oldest-Fetched q frame_size write none format l.buffers l.senders c.ordered.flights
                  others i e f oldest (c.ordered.held i) in
              let (o, formatted, orderly) = returns f l.output c.orderly in
              let step = process worker ne (rw at it.found) formatted in
              after_step step tt (
                finish_extent n _ (after_frame frame_size i e f it.behind o l) i _ e drains few
                  (record {
                    calm = c.calm;
                    life = c.life;
                    none_refused = c.none_refused;
                    orderly = orderly;
                    ordered =
                        Step-IsOrdered q frame_size write none format {h = h} step c.none_refused
                          c.ordered;
                  })
                  refl it.at_end)
        ]
  ]

  -- Before the terminator is taken the queue is not empty.
  never_empty : (fl : List (Flight F)) → [] ≢ extents fl ++ terminator ∷ []
  never_empty [] h = cc
  never_empty ((i, (f, e)) ∷ fl) h = cc

  take_off :
      (n : ℕ) (h : History F) (l : System F W q) (x : Extent) (s : q.State)
      → Drains n
      → length (q.contents l.queue) ≤ suc n
      → IsClosing h l
      → IsPopping l.worker
      → q.pop l.queue ≡ some (x, s)
      → Returns l
  unfolding noted
  take_off n h l terminator s drains few c popping pops =
      let (o, flushed) = flush_frames-done write lawful l.output c.orderly in
      let step = take_terminator 0 popping pops flushed in
      after_step step tt (_, rest, rw c.calm refl)
  take_off n h l (extent i e) s drains few c popping pops =
      let step = take_extent popping pops in
      let shorter = ap length (q.contents-pop l.queue pops) in
      after_step step tt (
        process_extent n h
          (record l { queue = s; worker = processing i (l.buffers i).input_start e }) i _ e drains
          (omega (arith, few, shorter))
          (record {
            calm = c.calm;
            life = c.life;
            none_refused = c.none_refused;
            orderly = c.orderly;
            ordered =
                Step-IsOrdered q frame_size write none format {h = h} step c.none_refused c.ordered;
          })
          refl)

  -- The queue is not empty before the terminator is taken.
  pops_some :
      (h : History F) (l : System F W q)
      → IsClosing h l
      → IsPopping l.worker
      → (x : Extent) × (s : q.State) × (q.pop l.queue ≡ some (x, s))
  pops_some h l c popping =
      let work = rw c.life at (
        AtWork-popping l.buffers (q.contents l.queue) l.life c.ordered.flights popping
          c.ordered.at_work) in
      elim (Option-cases (q.pop l.queue)) [
        | inl empty ↦
            absurd (never_empty c.ordered.flights (sym (q.pop_empty l.queue empty) ∙ work))
        | inr ((x, s), pops) ↦ (x, s, pops)
      ]

  drain : (n : ℕ) → Drains n
  unfolding Drains
  drain zero h l few c popping =
      let (x, s, pops) = pops_some h l c popping in
      absurd (omega (arith, few, ap length (q.contents-pop l.queue pops)))
  drain (suc n) h l few c popping =
      let (x, s, pops) = pops_some h l c popping in take_off n h l x s (drain n) few c popping pops

  from_worker :
      (w : Worker) (h : History F) (l : System F W q)
      → IsClosing h l
      → l.worker ≡ w
      → w ≢ halted
      → Returns l
  unfolding Drains
  from_worker starting h l c e ne =
      drain (length (q.contents l.queue)) h l (omega arith) c (rw e at_start)
  from_worker (polling t) h l c e ne =
      drain (length (q.contents l.queue)) h l (omega arith) c (rw e at_poll)
  from_worker (processing i p d) h l c e ne =
      process_extent (length (q.contents l.queue)) h l i p d (drain (length (q.contents l.queue)))
        (omega arith) c e
  from_worker returned h l c e ne = (l, rest, e)
  from_worker halted h l c e ne = absurd (ne refl)

  -- For a lawful writer, policies that do not block, no callback, formatters that return and leave
  -- the buffer ending with a complete frame, and such a buffer at hand: from any state, reached
  -- without a reverted allocation, in which `close` has sent the terminator, there is no panic and
  -- the worker has not halted, the worker by a finite number of its own steps returns.
  pub close-returned :
      {l0 : System F W q} {h : History F} {l : System F W q}
      → Reach q frame_size write none format l0 h l
      → h.refused ≡ 0
      → l.life ≡ closing
      → l.panic_flush ≡ false
      → l.worker ≢ halted
      → IsOrderly l.output
      → (l' : System F W q) × WorkerRun l l' × (l'.worker ≡ returned)
  close-returned {h = h} {l = l} reach r life calm ne orderly =
      from_worker l.worker h l
        (record {
          calm = calm;
          life = life;
          none_refused = r;
          orderly = orderly;
          ordered = Reach-IsOrdered q frame_size write none format reach r;
        })
        refl ne
