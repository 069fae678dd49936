-- ===== src/Delay/Waiting.antt =====
-- A delay as a whole: the task that asks for it is registered with the timer and blocked.
use taskette.Base.{
  ℕ, ◌+◌, ◌*◌, ◌^◌, ◌≤◌, ◌<◌, ◌≡◌, ◌≢◌, refl, ap, sym, subst, Bool, false, Option, none, some,
  arith, bit, tally, length, lt→ltb,
}
use taskette.Heapless.{DequeLib, IndexMapLib, BinaryHeapLib}
use taskette.Outcome.{Outcome, ok, err, not_initialized, Features}
use taskette.Outcome.Run.{continue}
use taskette.Kernel.{
  TaskInfo, TimerRegistry, Timer, SchedulerState, World, save, yield_now, max_timer_regs,
  idle_task_id,
}
use taskette.Scheduler.Invariant.{Inv}
use taskette.Scheduler.Invariant.Blocking.{Blocks}
use taskette.Timer.Ops.{set_timer, current_time}
use taskette.Timer.Waiting.{wait_until-Blocks}
use taskette.Delay.{Delay, delay_ticks, delay_in, delay_ms}
use taskette.Delay.Rounding.{ticks_for_rounds_up}

module _ ⦃d : DequeLib⦄ ⦃m : IndexMapLib⦄ ⦃h : BinaryHeapLib⦄ (w : World) (s : SchedulerState)
    (timer : Timer) (here : w.scheduler_state ≡ some s) (clock : w.timer ≡ some timer) (inv : Inv s)
    (f : Features) (i : TaskInfo) (room : length (h.items timer.queue) < max_timer_regs)
    (there : m.get s.tasks s.current_task ≡ some i) (ready : i.blocked ≡ false)
    (not_idle : s.current_task ≢ idle_task_id) where
  current_time-run : current_time w ≡ (ok timer.time, w)
  unfolding current_time
  current_time-run =
      ap
        (λ (o : Option Timer). elim o as (λ _. Outcome ℕ × World) [
          | none ↦ (err not_initialized, w)
          | some t ↦ (ok t.time, w)
        ])
        clock

  -- The task that runs is registered for `time` and blocked, and a switch is requested.
  abbrev pub WaitsUntil : ℕ → Outcome (Unit {0}) × World → Type 0
  WaitsUntil time result =
      (queue : h.BinaryHeap TimerRegistry _ max_timer_regs) × (s' : SchedulerState) × (result
        ≡ (ok tt, yield_now (save (set_timer w (record timer { queue = queue })) s')))
      × Blocks s.current_task s s'
      × ((p : TimerRegistry → Bool)
          → tally p (h.items queue)
            ≡ bit (p (record { time = time; task_id = s.current_task }))
              + tally p (h.items timer.queue))

  delay_ticks-Waits :
      (ticks : ℕ)
      → 0 < ticks
      → timer.time + ticks < 2 ^ 64
      → WaitsUntil (timer.time + ticks) (delay_ticks f ticks w)
  unfolding delay_ticks
  delay_ticks-Waits ticks some_ticks small =
      let (queue, s', runs, blocks, tallies) =
        wait_until-Blocks w s timer here clock inv (timer.time + ticks) i
          (omega (arith, some_ticks)) room there ready not_idle in
      (
        queue,
        s',
        rw (delay_ticks, current_time-run, lt→ltb (timer.time + ticks) (2 ^ 64) small, runs) refl,
        blocks,
        tallies,
      )

  -- In a good state where the task that runs is ready and not the idle task, the timer has room,
  -- and the clock is more than `2 ^ 32` ticks from its end: a delay of some milliseconds whose
  -- product with the tick frequency fits into 32 bits registers the task for the first tick that is so many milliseconds away, or more, blocks it,
  -- and requests a switch.
  pub delay_ms-Waits :
      (delay : Delay) (ms : ℕ)
      → 0 < ms * delay.tick_freq
      → ms * delay.tick_freq < 2 ^ 32
      → timer.time + 2 ^ 32 < 2 ^ 64
      → (ticks : ℕ) × (ms * delay.tick_freq ≤ ticks * 1000)
        × (ticks * 1000 < ms * delay.tick_freq + 1000)
        × WaitsUntil (timer.time + ticks) (delay_ms f delay ms w)
  unfolding delay_ms delay_in
  delay_ms-Waits delay ms positive fits small =
      let (ticks, counted, enough, tight) =
        ticks_for_rounds_up f delay 1000 ms (omega arith) fits in
      (
        ticks,
        enough,
        tight,
        subst (λ (r : Outcome ℕ). WaitsUntil (timer.time + ticks) (continue (delay_ticks f) (r, w)))
            (sym counted)
            (delay_ticks-Waits ticks (omega (arith, positive, enough))
              (omega (arith, small, tight, fits))),
      )
