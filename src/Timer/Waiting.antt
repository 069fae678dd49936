-- ===== src/Timer/Waiting.antt =====
-- `wait_until` and `tick` at the state of the program.
use taskette.Base.{
  ℕ, ◌+◌, ◌^◌, ◌≤◌, ◌<◌, ◌≡◌, ◌≢◌, refl, ap, ◌∙◌, Bool, true, false, Option, some, le→leb, lt→leb,
  lt→ltb, bit, tally, length,
}
use taskette.Heapless.{DequeLib, IndexMapLib, BinaryHeapLib}
use taskette.Outcome.{Error, ok, err, Features, timer_full}
use taskette.Outcome.Run.{continue}
use taskette.Kernel.{
  TaskInfo, TimerRegistry, Timer, SchedulerState, World, save, yield_now, max_timer_regs,
  idle_task_id,
}
use taskette.Scheduler.Tasks.{enter, current_task_id}
use taskette.Scheduler.Invariant.{Inv}
use taskette.Scheduler.Invariant.Blocking.{Blocks, Unblocks}
use taskette.Scheduler.Calls.{block_task-Blocks, unblock_task-Unblocks}
use taskette.Timer.Lateness.{due, ring_at_quiet}
use taskette.Timer.Ops.{
  ring_at, set_timer, wake_rung, tick_from, tick, wait_from, wait_task_until, wait_until,
}

module _ ⦃d : DequeLib⦄ ⦃m : IndexMapLib⦄ ⦃h : BinaryHeapLib⦄ (w : World) (s : SchedulerState)
    (timer : Timer) (here : w.scheduler_state ≡ some s) (clock : w.timer ≡ some timer)
    (inv : Inv s) where
  pub wait_until-run :
      (time : ℕ) → wait_until time w ≡ wait_from (some timer) time s.current_task (save w s)
  unfolding wait_until current_task_id
  wait_until-run time =
      ap (continue (wait_task_until time)) (
        ap (enter (err Error.not_initialized) (λ (t : SchedulerState). (ok t.current_task, t)) w)
          here)
      ∙ ap (λ (o : Option Timer). wait_from o time s.current_task (save w s)) clock

  -- A time that has come returns at once.
  pub wait_until-past : (time : ℕ) → time ≤ timer.time → wait_until time w ≡ (ok tt, save w s)
  wait_until-past time past = wait_until-run time ∙ rw (le→leb time timer.time past)

  -- With 32 registrations the next one is refused, and the task goes on.
  pub wait_until-full :
      (time : ℕ)
      → timer.time < time
      → length (h.items timer.queue) ≡ max_timer_regs
      → wait_until time w ≡ (err timer_full, save w s)
  wait_until-full time later full =
      wait_until-run time
      ∙ rw (
        lt→leb time timer.time later,
        h.push-full timer.queue (record { time = time; task_id = s.current_task }) full,
      )

  -- In a good state where the task that runs is ready and not the idle task, with a time to come
  -- and less than 32 registrations:
  -- The task that runs is registered and blocked, and a switch is requested.
  pub wait_until-Blocks :
      (time : ℕ) (i : TaskInfo)
      → timer.time < time
      → length (h.items timer.queue) < max_timer_regs
      → m.get s.tasks s.current_task ≡ some i
      → i.blocked ≡ false
      → s.current_task ≢ idle_task_id
      → (queue : h.BinaryHeap TimerRegistry _ max_timer_regs) × (s' : SchedulerState) × (wait_until
            time w
          ≡ (ok tt, yield_now (save (set_timer w (record timer { queue = queue })) s')))
        × Blocks s.current_task s s'
        × ((p : TimerRegistry → Bool)
            → tally p (h.items queue)
              ≡ bit (p (record { time = time; task_id = s.current_task }))
                + tally p (h.items timer.queue))
  wait_until-Blocks time i later room there ready not_idle =
      let (queue, pushed, tallies) =
        h.push-room timer.queue (record { time = time; task_id = s.current_task }) room in
      let (s', blocked, blocks) =
        block_task-Blocks (set_timer (save w s) (record timer { queue = queue })) s refl inv
          s.current_task i there not_idle ready in
      (
        queue,
        s',
        wait_until-run time ∙ rw (lt→leb time timer.time later, pushed) blocked,
        blocks,
        tallies,
      )

  -- The clock after one tick.
  pub tick-run :
      (f : Features)
      → timer.time + 1 < 2 ^ 64
      → tick f w ≡ wake_rung (ring_at timer (timer.time + 1)) w
  unfolding tick
  tick-run f small =
      ap (λ (o : Option Timer). tick_from f o w) clock ∙ rw (lt→ltb (timer.time + 1) (2 ^ 64) small)

  -- In a good state, and as long as the clock does not overflow:
  -- With nothing due the tick moves the clock alone.
  pub tick_quiet :
      (f : Features)
      → timer.time + 1 < 2 ^ 64
      → due (timer.time + 1) timer ≡ 0
      → tick f w ≡ (ok tt, set_timer w (record timer { time = timer.time + 1 }))
  tick_quiet f small quiet =
      tick-run f small
      ∙ ap (λ (r : Option ℕ × Timer). wake_rung r w) (ring_at_quiet timer (timer.time + 1) quiet)

  -- In a good state, as long as the clock does not overflow, where that task is blocked and does
  -- not run:
  -- The task of the earliest registration is woken when it is due, and the registration is gone.
  pub tick-Unblocks :
      (f : Features) (r : TimerRegistry) (i : TaskInfo)
      → timer.time + 1 < 2 ^ 64
      → h.peek timer.queue ≡ some r
      → r.time ≤ timer.time + 1
      → m.get s.tasks r.task_id ≡ some i
      → i.blocked ≡ true
      → s.current_task ≢ r.task_id
      → (s' : SchedulerState) × (tick f w ≡ (
        ok tt,
        yield_now
            (save (set_timer w (record { time = timer.time + 1; queue = h.pop timer.queue })) s'),
      ))
        × Unblocks r.task_id s s'
  unfolding ring_at
  tick-Unblocks f r i small first rings there blocked away =
      let (s', runs, unblocks) =
        unblock_task-Unblocks
          (set_timer w (record { time = timer.time + 1; queue = h.pop timer.queue })) s here inv
          r.task_id i there away blocked in
      (
        s',
        tick-run f small ∙ rw (first, ring_at, le→leb r.time (timer.time + 1) rings) (rw runs),
        unblocks,
      )
