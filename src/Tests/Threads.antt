-- ===== src/Tests/Threads.antt =====
-- The event and the threads of the log at chosen runs.
use reckless.Prelude.{ℕ, ◌<◌, ◌≡◌, refl, arith, List, [], ◌∷◌, ◌++◌, none, some, true}
use reckless.InputBuffer.{InputBuffer, create, try_allocate, store, advance, discard_input_frame}
use reckless.OutputBuffer.{OutputBuffer, commit, frame_end, has_complete_frame}
use reckless.Log.{Queue, next_wait_time, fetch, output_frame, after_format, flush_frames}
use reckless.Log.System.{
  System, History, noted, Sender, ready, sending, starting, processing, returned, polling, running,
  update, touch, after_frame, at_start, IsOpened, opened, write_frame, send, close, take_extent,
  take_terminator, process, finish,
}
use reckless.Log.System as Run
use reckless.OutputBuffer.Flush.{stream}
use reckless.Log.Close.{WorkerRun, close-returned}
use reckless.Log.Text.{IsOrderly}
use reckless.Output.{emit}
use reckless.Output.Appends.{emit-Appends}
use reckless.OutputBuffer.Flush.{IsWriter}
use reckless.OutputBuffer.Framed.{framed_buffer}
use reckless.OutputBuffer.Emit.{emit_call, emit_call-emit}
use reckless.Log.Lines.{Written, returned-Written}
use reckless.OutputBuffer.Working.{IsWorking}
use reckless.Log.Complete.{texts, returned-texts}
use reckless.Log.Panic.{PollsInPanic, no_step, one_more, panic_flush-polls}
use reckless.Log.Order.{formatted_in_order, returned-formatted, process-finds}
use reckless.Event.{
  Event, no_signal, asleep, Reach, start, later, set, wake, move, woken, wait_step,
}
use reckless.Event.Wakeup.{no_lost_wakeup, wait-returns, run}
use reckless.Tests.Runs.{
  emit_format, emitted, emitted_all, ended_run, finished, format, four_extents, frame_size, new_log,
  next, processed, take_all, taken, written,
}

-- The thread falls asleep, and another one sets the signal.
asleep_and_set : Event
asleep_and_set = record { signal = true; waiter = asleep; wakes = 1 }

asleep_and_set-Reach : Reach asleep_and_set
unfolding asleep_and_set wait_step
asleep_and_set-Reach = later (later (later (later start move) move) move) set

no_lost_wakeup_example : 0 < asleep_and_set.wakes
unfolding asleep_and_set
no_lost_wakeup_example = no_lost_wakeup asleep_and_set-Reach refl refl

wait-returns_example :
    (n : ℕ) × (n < 3)
    × (run n (record asleep_and_set { waiter = woken asleep; wakes = 0 }) ≡ no_signal)
unfolding asleep_and_set woken
wait-returns_example = wait-returns (later asleep_and_set-Reach (wake refl)) (λ e. cc) refl refl

formatted_in_order_example :
    (waiting : List (ℕ × ℕ)) × ((taken format).history.sent
      ≡ (taken format).history.formatted ++ waiting)
unfolding taken written next noted
formatted_in_order_example =
    formatted_in_order four_extents frame_size take_all none format (taken format).reach refl

process-finds_example :
    (f : ℕ) × (b : InputBuffer ℕ) × (waiting : List (ℕ × ℕ)) × (fetch 0
        ((taken format).log.buffers 0)
      ≡ (some f, b))
    × ((discard_input_frame (frame_size f) b).input_start ≡ 16)
    × ((taken format).history.sent ≡ (taken format).history.formatted ++ (0, f) ∷ waiting)
unfolding taken written next noted four_extents new_log update store create try_allocate advance
process-finds_example =
    process-finds four_extents frame_size take_all none format (taken format).reach refl refl
      (omega arith)

returned-formatted_example :
    (ended_run.history.formatted ≡ ended_run.history.sent)
    × (Queue.contents four_extents ended_run.log.queue ≡ [])
unfolding ended_run next noted finished processed taken written
returned-formatted_example =
    returned-formatted four_extents frame_size take_all none format ended_run.reach refl refl

panic_flush-polls_example :
    PollsInPanic four_extents frame_size take_all none format
      (record new_log { worker = polling (next_wait_time 0); panic_flush = true })
unfolding four_extents new_log flush_frames has_complete_frame
panic_flush-polls_example =
    panic_flush-polls four_extents frame_size take_all none format
      (record { wait_time = 0; polls = refl; panics = refl; empty = refl; none_past = λ i. refl })
      (one_more {l' = record new_log { worker = polling 0; panic_flush = true }} no_step
        (Run.poll 0 refl refl refl))
      refl

format-returns :
    (f : ℕ) (s : OutputBuffer (Unit {0}))
    → IsOrderly s
    → (o : OutputBuffer (Unit {0})) × (format f s ≡ some o) × IsOrderly o
unfolding format output_frame after_format commit frame_end
format-returns f s h =
    (frame_end (commit (f ∷ []) s), refl, record { complete = refl; quiet = h.quiet })

close-returned_example :
    (l : System ℕ (Unit {0}) four_extents) × WorkerRun four_extents frame_size take_all format
      (record { at_most = λ w d. omega arith; all = λ w d e. refl })
      format-returns
      processed.log
      l
    × (l.worker ≡ returned)
unfolding processed taken written next noted four_extents new_log update store create try_allocate
    advance fetch format output_frame after_format commit after_frame frame_end
close-returned_example =
    close-returned four_extents frame_size take_all format
      (record { at_most = λ w d. omega arith; all = λ w d e. refl }) format-returns processed.reach
      refl refl refl (λ e. cc) (record { complete = refl; quiet = ((λ e. cc), (λ e. cc)) })

take_all-IsWriter : IsWriter take_all
take_all-IsWriter = record { at_most = λ w d. omega arith; all = λ w d e. refl }

returned-Written_example :
    Written (λ f. f ∷ []) emitted_all.history.sent (stream emitted_all.log.output)
unfolding emitted_all next noted emitted taken written emit_format
returned-Written_example =
    returned-Written four_extents frame_size take_all take_all-IsWriter (λ f. f ∷ [])
      (λ f s. emit_call take_all 1 (λ mem. f ∷ []) s)
      (λ t f v. emit (framed_buffer take_all take_all-IsWriter t) 1 (λ mem. f ∷ []) v)
      (λ t f v. emit_call-emit take_all take_all-IsWriter t 1 (λ mem. f ∷ []) v)
      (λ t f v.
        emit-Appends (framed_buffer take_all take_all-IsWriter t) 1 (λ mem. f ∷ []) (f ∷ []) v
          (λ mem e. refl) refl)
      ((λ e. cc), (λ e. cc)) emitted_all.reach refl refl

take_all-IsWorking : IsWorking take_all
take_all-IsWorking = record { lawful = take_all-IsWriter; works = λ w d. refl }

returned-texts_example :
    (emitted_all.log.output.sink ≡ texts (λ f. f ∷ []) emitted_all.history.sent)
    × (emitted_all.log.output.committed ≡ [])
unfolding emitted_all next noted emitted taken written emit_format
returned-texts_example =
    returned-texts four_extents frame_size take_all take_all-IsWorking (λ f. f ∷ [])
      (λ f mem. f ∷ []) (λ f mem e. refl) 8 (omega arith) (λ f. omega arith) (λ f s. s)
      ((λ e. cc), (λ e. cc)) refl emitted_all.reach refl refl
