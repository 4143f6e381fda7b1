-- ===== src/Event.antt =====
-- reckless/include/reckless/detail/spsc_event.hpp: an event on a futex, with one thread that waits
-- and any number of threads that signal. Each atomic access and each system call is a step.
pub mod Wakeup
use reckless.Prelude.{ℕ, zero, suc, ◌+◌, ◌≡◌, Bool, true, false}

-- Where the waiting thread stands: outside of `wait`, before the exchange, between an exchange that
-- found no signal and FUTEX_WAIT, or asleep in the kernel.
pub data Waiter : Type 0 where
  outside exchanging going_to_sleep asleep : Waiter

-- `signal` is the word `signal_`; `wakes` counts the calls of `signal` between their exchange and
-- their FUTEX_WAKE.
pub record Event : Type 0 where
  pub signal : Bool
  pub waiter : Waiter
  pub wakes : ℕ

-- The constructor.
abbrev pub no_signal : Event
no_signal = record { signal = false; waiter = outside; wakes = 0 }

-- FUTEX_WAKE.
unfoldable pub woken : Waiter → Waiter
woken outside = outside
woken exchanging = exchanging
woken going_to_sleep = going_to_sleep
woken asleep = exchanging

-- The step that the waiting thread takes next by itself; asleep it takes none.
unfoldable pub wait_step : Event → Event
wait_step e = elim (e.waiter) [
  | outside ↦ record e { waiter = exchanging }
  | exchanging ↦ elim (e.signal) [
    | true ↦ record e { signal = false; waiter = outside }
    | false ↦ record e { waiter = going_to_sleep }
  ]
  | going_to_sleep ↦ elim (e.signal) [
    | true ↦ record e { waiter = exchanging }
    | false ↦ record e { waiter = asleep }
  ]
  | asleep ↦ e
]

pub data Step (e : Event) : Event → Type 0 where
  -- The exchange of `signal`, and its FUTEX_WAKE.
  set : Step e (record e { signal = true; wakes = suc e.wakes })
  wake : {n : ℕ} → e.wakes ≡ suc n → Step e (record e { waiter = woken e.waiter; wakes = n })
  -- A step of `wait`.
  move : Step e (wait_step e)
  -- FUTEX_WAIT ends by itself, at a signal handler or at the timeout of `wait(milliseconds)`.
  interrupt : e.waiter ≡ asleep → Step e (record e { waiter = exchanging })
  -- `wait(milliseconds)` gives up after the exchange has found no signal.
  give_up : e.waiter ≡ going_to_sleep → Step e (record e { waiter = outside })

pub data Reach : Event → Type 0 where
  start : Reach no_signal
  later : {e e' : Event} → Reach e → Step e e' → Reach e'
