-- ===== src/Examples/Futures.antt =====
-- The theorems on `block_on` and its waker, run at concrete states.
use taskette.Base.{ℕ, zero, suc, ◌≡◌, refl, [], ◌∷◌}
use taskette.Heapless.Lists.{list_deque, list_map, list_heap}
use taskette.Outcome.{ok}
use taskette.Outcome.Run.{M, pure}
use taskette.Futex.{Futex, Shared, new, wait, wait_slow, add_waiter}
use taskette.Futex.Waking.{Wakes}
use taskette.Futures.{Poll, ready, pending, Others, store, raw_waker_wake, raw_waker_wake_by_ref}
use taskette.Futures.Wakeups.{Meanwhile, nothing, waiter, raw_waker_wake_seen}
use taskette.Examples.{running, asleep, asleep-Inv, asleep-Sleeping, shared}

-- A future that is ready after as many polls as its state says.
countdown : ℕ → M Shared (Poll ℕ ℕ)
countdown zero = pure (ready 42)
countdown (suc n) = pure (pending n)

-- A futex of value 0 that nobody waits on, in a program where task 1 runs.
unfoldable unset : Futex
unfolding new list_deque
unset = new 0

abbrev rested : Shared
rested = shared running unset

-- Others that do nothing before the critical section, and bring task 1 back.
abbrev kind_others : Others
kind_others = record { between = λ k x. x; until = λ k x. rested }

-- Task 2 waits on a futex of value 0.
unfoldable waited : Futex
unfolding add_waiter unset
waited = (add_waiter 2 unset).1

waited_items : list_deque.items waited.waiting_tasks ≡ 2 ∷ []
unfolding waited
waited_items = refl

-- Between the two steps of the waker task 1, whose first test came before it, is in the critical
-- section of `wait`: it finds 1 and goes on.
too_late : Meanwhile (store 1 (shared asleep waited)).1 (store 1 (shared asleep waited)).1
unfolding wait_slow
too_late = waiter refl nothing

raw_waker_wake_seen_example :
    (x' : Shared) × (raw_waker_wake (λ x. x) (shared asleep waited) ≡ (ok tt, x'))
    × (raw_waker_wake_by_ref (λ x. x) (shared asleep waited) ≡ (ok tt, x'))
    × Wakes (list_deque.items waited.waiting_tasks) [] asleep (store 1 (shared asleep waited)).1 x'
    × (wait (λ x. x) 0 x' ≡ (ok tt, x'))
    × (wait_slow 0 x' ≡ (ok tt, x'))
raw_waker_wake_seen_example =
    raw_waker_wake_seen (λ x. x) (λ x. x) (shared asleep waited) asleep too_late refl asleep-Inv
      (rw waited_items asleep-Sleeping)
