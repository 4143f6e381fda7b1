-- ===== src/Event/Wakeup.antt =====
-- No wake-up is lost between the two steps of `signal` and those of `wait`.
use reckless.Prelude.{ℕ, zero, suc, ◌<◌, ◌≡◌, ◌≢◌, refl, Bool, true, false, arith}
use reckless.Event.{
  Event, Waiter, outside, exchanging, going_to_sleep, asleep, no_signal, woken, wait_step, Step,
  set, wake, move, interrupt, give_up, Reach, start, later,
}

-- Whoever set the signal on a sleeping thread has still to wake it.
pub IsCovered : Event → Type 0
IsCovered e = e.waiter ≡ asleep → e.signal ≡ true → 0 < e.wakes

wake-awake : (w : Waiter) → woken w ≢ asleep
unfolding woken
wake-awake outside h = cc
wake-awake exchanging h = cc
wake-awake going_to_sleep h = cc
wake-awake asleep h = cc

move-IsCovered :
    (signal : Bool) (waiter : Waiter) (wakes : ℕ)
    → IsCovered (record { signal = signal; waiter = waiter; wakes = wakes })
    → IsCovered (wait_step (record { signal = signal; waiter = waiter; wakes = wakes }))
unfolding wait_step IsCovered
move-IsCovered true outside wakes c = λ a b. cc
move-IsCovered false outside wakes c = λ a b. cc
move-IsCovered true exchanging wakes c = λ a b. cc
move-IsCovered false exchanging wakes c = λ a b. cc
move-IsCovered true going_to_sleep wakes c = λ a b. cc
move-IsCovered false going_to_sleep wakes c = λ a b. cc
move-IsCovered signal asleep wakes c = c

Step-IsCovered : {e e' : Event} → Step e e' → IsCovered e → IsCovered e'
unfolding IsCovered
Step-IsCovered set c = λ a b. omega arith
Step-IsCovered {e} (wake h) c = λ a b. absurd (wake-awake e.waiter a)
Step-IsCovered {e} move c = move-IsCovered e.signal e.waiter e.wakes c
Step-IsCovered (interrupt h) c = λ a b. cc
Step-IsCovered (give_up h) c = λ a b. cc

Reach-IsCovered : {e : Event} → Reach e → IsCovered e
unfolding IsCovered
Reach-IsCovered start = λ a b. cc
Reach-IsCovered (later r s) = Step-IsCovered s (Reach-IsCovered r)

-- In every state that the steps reach, if the waiting thread is asleep while the signal is set, a
-- thread that has set it has still to make its wake-up call.
pub no_lost_wakeup : {e : Event} → Reach e → e.waiter ≡ asleep → e.signal ≡ true → 0 < e.wakes
unfolding IsCovered
no_lost_wakeup r = Reach-IsCovered r

-- The waiting thread's own steps.
pub run : ℕ → Event → Event
run zero e = e
run (suc n) e = run n (wait_step e)

run-returns :
    (signal : Bool) (waiter : Waiter) (wakes : ℕ)
    → waiter ≢ asleep
    → waiter ≢ outside
    → signal ≡ true
    → wakes ≡ 0
    → (n : ℕ) × (n < 3)
      × (run n (record { signal = signal; waiter = waiter; wakes = wakes }) ≡ no_signal)
unfolding run wait_step
run-returns true outside wakes h1 h2 s z = absurd (h2 refl)
run-returns true exchanging wakes h1 h2 s z = (1, omega arith, rw z refl)
run-returns true going_to_sleep wakes h1 h2 s z = (2, omega arith, rw z refl)
run-returns true asleep wakes h1 h2 s z = absurd (h1 refl)
run-returns false w wakes h1 h2 s z = absurd (cc)

-- In every state that the steps reach in which the thread is in `wait`, the signal is set and no
-- wake-up call is outstanding, the thread returns after fewer than three steps of its own, with the
-- signal cleared.
pub wait-returns :
    {e : Event}
    → Reach e
    → e.waiter ≢ outside
    → e.signal ≡ true
    → e.wakes ≡ 0
    → (n : ℕ) × (n < 3) × (run n e ≡ no_signal)
wait-returns {e} r inside signalled none_pending =
    run-returns e.signal e.waiter e.wakes
      (λ a. absurd (omega (arith, no_lost_wakeup r a signalled))) inside signalled none_pending
