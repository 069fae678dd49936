-- ===== src/Futures/Wakeups.antt =====
-- A waker against the waits of other tasks: whoever waits before it signals the futex is woken, and
-- nobody goes to sleep after that.
use taskette.Base.{◌≡◌, ◌≢◌, refl, ap, sym, subst, ◌∙◌, some, [], arith, ne→eqb}
use taskette.Heapless.{DequeLib, IndexMapLib, BinaryHeapLib}
use taskette.Outcome.{Outcome, ok}
use taskette.Outcome.Run.{expect}
use taskette.Kernel.{SchedulerState, World}
use taskette.Scheduler.Invariant.{Inv}
use taskette.Futex.{Futex, Shared, wait, wait_slow}
use taskette.Futex.Waits.{wait_fast}
use taskette.Futex.Waking.{Sleeping, Wakes, wake_all-Wakes}
use taskette.Futures.{store, raw_waker_wake, raw_waker_wake_by_ref}

module _ ⦃d : DequeLib⦄ ⦃m : IndexMapLib⦄ ⦃h : BinaryHeapLib⦄ where
  -- What others do while a waker is between its two steps: critical sections of `wait 0`, by tasks
  -- whose first test may have come before the store, and any change of the program's state.
  pub data Meanwhile : Shared → Shared → Type 0 where
    nothing : {x : Shared} → Meanwhile x x
    waiter : {x y z : Shared} → wait_slow 0 x ≡ (ok tt, y) → Meanwhile y z → Meanwhile x z
    elsewhere : {x z : Shared} (w : World) → Meanwhile (record x { world = w }) z → Meanwhile x z

  wait_slow-signalled : (x : Shared) → x.futex.value ≢ 0 → wait_slow 0 x ≡ (ok tt, x)
  unfolding wait_slow
  wait_slow-signalled x set = rw (ne→eqb x.futex.value 0 set)

  pub Meanwhile-same : {x y : Shared} → Meanwhile x y → x.futex.value ≡ 1 → y.futex ≡ x.futex
  Meanwhile-same nothing set = refl
  Meanwhile-same {x} (waiter {y} runs later) set =
      let same : y ≡ x =
        ap (λ (r : Outcome (Unit {0}) × Shared). r.1)
          (sym runs ∙ wait_slow-signalled x (λ e. absurd (omega (arith, set, e)))) in
      Meanwhile-same later (ap (λ (z : Shared). z.futex.value) same ∙ set)
      ∙ ap (λ (z : Shared). z.futex) same
  Meanwhile-same (elsewhere w later) set = Meanwhile-same later set

  -- Where other tasks and handlers that run between the two steps of a waker come to the futex only
  -- in critical sections of `wait 0`, and leave a good state in which the tasks on the wait queue
  -- are blocked, once each, and none of them runs:
  -- The waker, by value or by reference, does not panic; it wakes exactly the tasks that waited on
  -- the futex when it was called, and nobody waits on it afterwards; and both a call of `wait 0`
  -- that begins after it and one whose first test came before it return at once.
  pub raw_waker_wake_seen :
      (between later : Shared → Shared) (x : Shared) (s : SchedulerState)
      → Meanwhile (store 1 x).1 (between (store 1 x).1)
      → (between (store 1 x).1).world.scheduler_state ≡ some s
      → Inv s
      → Sleeping s (d.items (between (store 1 x).1).futex.waiting_tasks)
      → (x' : Shared) × (raw_waker_wake between x ≡ (ok tt, x'))
        × (raw_waker_wake_by_ref between x ≡ (ok tt, x'))
        × Wakes (d.items x.futex.waiting_tasks) [] s (between (store 1 x).1) x'
        × (wait later 0 x' ≡ (ok tt, x'))
        × (wait_slow 0 x' ≡ (ok tt, x'))
  unfolding raw_waker_wake raw_waker_wake_by_ref
  raw_waker_wake_seen between later x s meanwhile here inv sleeping =
      let y = between (store 1 x).1 in
      let same : y.futex ≡ (store 1 x).1.futex = Meanwhile-same meanwhile refl in
      let waiting : d.items y.futex.waiting_tasks ≡ d.items x.futex.waiting_tasks =
        ap (λ (f : Futex). d.items f.waiting_tasks) same in
      let value : y.futex.value ≡ 1 = ap (λ (f : Futex). f.value) same in
      let (x', runs, wakes) = wake_all-Wakes y s here inv sleeping in
      let woken : raw_waker_wake between x ≡ (ok tt, x') =
        ap (λ (r : Outcome (Unit {0}) × Shared). expect (λ (z : Shared). r) y) runs in
      let set : x'.futex.value ≢ 0 = λ e. absurd (omega (arith, wakes.value, value, e)) in
      (
        x',
        woken,
        woken,
        subst (λ xs. Wakes xs [] s y x') waiting wakes,
        wait_fast later 0 x' set,
        wait_slow-signalled x' set,
      )
