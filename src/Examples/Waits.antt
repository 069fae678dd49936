-- ===== src/Examples/Waits.antt =====
-- The theorems on the timer and the futex, run at concrete states.
use taskette.Base.{◌+◌, ◌≡◌, refl, inl, [], ◌∷◌, ◌++◌, arith}
use taskette.Heapless.Lists.{list_deque, list_map, list_heap}
use taskette.Outcome.{ok}
use taskette.Kernel.{SchedulerState, save, yield_now}
use taskette.Scheduler.Invariant.Blocking.{Blocks, Unblocks}
use taskette.Timer.Ops.{set_timer, tick}
use taskette.Timer.Waiting.{tick-Unblocks}
use taskette.Futex.{Shared, wait_slow, wake, wake_all}
use taskette.Futex.Waits.{wait_slow-Blocks}
use taskette.Futex.Waking.{Wakes, wake-Wakes, wake_all-Wakes}
use taskette.Examples.{
  running, running-Inv, running_current, running_runs, asleep, asleep-Inv, asleep_current,
  asleep_sleeps, worker, sleeper, plain, world, clock, idle_clock, alarm, clock_time, clock_first,
  free, awaited, free_items, awaited_items, shared, asleep-Sleeping,
}

tick-Unblocks_example :
    (s' : SchedulerState) × (tick plain (world asleep clock) ≡ (
      ok tt,
      yield_now (
          save
            (set_timer
              (world asleep clock)
              (record { time = clock.time + 1; queue = list_heap.pop clock.queue }))
            s'),
    ))
    × Unblocks 2 asleep s'
tick-Unblocks_example =
    tick-Unblocks (world asleep clock) asleep clock refl refl asleep-Inv plain alarm sleeper
      (omega (arith, clock_time)) clock_first (omega (arith, clock_time)) asleep_sleeps refl
      (λ e. absurd (omega (arith, asleep_current)))

wait_slow-Blocks_example :
    (q : list_deque.Deque 16) × (s' : SchedulerState) × (wait_slow free.value (shared running free)
      ≡ (
        ok tt,
        record {
          futex = record free { waiting_tasks = q };
          world = yield_now (save (world running idle_clock) s');
        },
      ))
    × (list_deque.items q ≡ list_deque.items free.waiting_tasks ++ running.current_task ∷ [])
    × Blocks running.current_task running s'
wait_slow-Blocks_example =
    wait_slow-Blocks (shared running free) running refl worker running-Inv running_runs refl
      (λ e. absurd (omega (arith, running_current))) (rw free_items (omega arith))

wake-Wakes_example :
    (x' : Shared) × (wake 1 (shared asleep awaited) ≡ (ok tt, x'))
    × Wakes (2 ∷ []) [] asleep (shared asleep awaited) x'
wake-Wakes_example =
    wake-Wakes 1 (2 ∷ []) [] (shared asleep awaited) asleep refl asleep-Inv awaited_items (inl refl)
      asleep-Sleeping

wake_all-Wakes_example :
    (x' : Shared) × (wake_all (shared asleep awaited) ≡ (ok tt, x'))
    × Wakes (list_deque.items awaited.waiting_tasks) [] asleep (shared asleep awaited) x'
wake_all-Wakes_example =
    wake_all-Wakes (shared asleep awaited) asleep refl asleep-Inv (rw awaited_items asleep-Sleeping)
