-- ===== src/Program/Sleeping/Ticks.antt =====
-- Interrupts of the timer, until a task that sleeps is awake.
use taskette.Base.{
  ℕ, zero, suc, ◌+◌, ◌^◌, ◌≤◌, ◌<◌, ◌≡◌, refl, ap, ◌∙◌, some, arith, inl, inr, tally, leb, List, [],
  ◌∷◌,
}
use taskette.Heapless.{DequeLib, IndexMapLib, BinaryHeapLib}
use taskette.Outcome.{Outcome, ok, err, panic, Features}
use taskette.Outcome.Run.{continue, ignore_err}
use taskette.Kernel.{TimerRegistry, Timer, SchedulerState, World, max_timer_regs}
use taskette.Scheduler.Invariant.{Inv}
use taskette.Timer.Ops.{ring_at, handle_tick}
use taskette.Timer.Lateness.{due, due-ring_at, after_ticks, due-after_ticks_all}
use taskette.Program.{Settled}
use taskette.Program.Ending.{Ends}
use taskette.Program.Sleeping.{is_for, IsAwake, IsAsleep, handle_ticks}
use taskette.Program.Sleeping.Tick.{Ticked, handle_tick-Ticked}

tally-due :
    (t time : ℕ) (rs : List TimerRegistry)
    → tally (is_for t time) rs ≤ tally (λ r. leb r.time time) rs
tally-due t time [] = omega arith
tally-due t time (r ∷ rs) = ground (arith, tally-due t time rs)

module _ ⦃d : DequeLib⦄ ⦃m : IndexMapLib⦄ ⦃h : BinaryHeapLib⦄ (t time : ℕ) where
  forgotten :
      (P : World → Type 0) (w : World) (p : Outcome (Unit {0}) × World)
      → Ends P p
      → (v : World) × (ignore_err (λ _. p) w ≡ (ok tt, v)) × P v
  forgotten P w (ok a, v) (no_panic, good) = (v, refl, good)
  forgotten P w (err x, v) (no_panic, good) = (v, refl, good)
  forgotten P w (panic, v) (no_panic, good) = absurd (no_panic refl)

  handle_ticks-Ticked :
      (f : Features) (n : ℕ) (timer : Timer) (w : World)
      → Ticked t time timer w
      → timer.time + n < 2 ^ 64
      → (v : World) × (handle_ticks f n w ≡ (ok tt, v)) × Ticked t time (after_ticks n timer) v
  unfolding handle_ticks after_ticks
  handle_ticks-Ticked f zero timer w now small = (w, refl, now)
  handle_ticks-Ticked f (suc n) timer w now small =
      let timer' : Timer = (ring_at timer (timer.time + 1)).1 in
      let (v, runs, next) =
        forgotten (Ticked t time timer') w (handle_tick f w)
          (handle_tick-Ticked t time w timer now f (omega (arith, small))) in
      let (reset, clock) = due-ring_at timer (timer.time + 1) 0 (omega arith) in
      let (v', rest, end) = handle_ticks-Ticked f n timer' v next (omega (arith, small, clock)) in
      (v', ap (continue (λ _. handle_ticks f n)) runs ∙ rest, end)

  after_ticks-add :
      (k n : ℕ) (timer : Timer) → after_ticks (k + n) timer ≡ after_ticks n (after_ticks k timer)
  unfolding after_ticks
  after_ticks-add zero n timer =
      ap (λ (j : ℕ). after_ticks j timer) {x = 0 + n} {y = n} (omega arith)
  after_ticks-add (suc k) n timer =
      ap (λ (j : ℕ). after_ticks j timer) {x = suc k + n} {y = suc (k + n)} (omega arith)
      ∙ after_ticks-add k n (ring_at timer (timer.time + 1)).1

  after_ticks_time : (k : ℕ) (timer : Timer) → (after_ticks k timer).time ≡ timer.time + k
  unfolding after_ticks
  after_ticks_time zero timer = omega arith
  after_ticks_time (suc k) timer =
      let (reset, clock) = due-ring_at timer (timer.time + 1) 0 (omega arith) in
      omega (arith, clock, after_ticks_time k (ring_at timer (timer.time + 1)).1)

  -- In a good state where the task that runs is not blocked, with task `t` blocked and registered
  -- with the timer for `time`, and as long as the clock does not overflow: once the clock is a tick
  -- before `time`, or later, after `k` interrupts of the timer, 32 more of them, with no other call
  -- in between, end without a panic, in a good state where the task is not blocked.
  pub handle_ticks-wake :
      (f : Features) (k : ℕ) (w : World) (s : SchedulerState) (timer : Timer)
      → w.scheduler_state ≡ some s
      → w.timer ≡ some timer
      → Inv s
      → Settled s
      → IsAsleep t time timer s
      → time ≤ timer.time + k + 1
      → timer.time + (k + max_timer_regs) < 2 ^ 64
      → (w' : World) × (s' : SchedulerState) × (handle_ticks f (k + max_timer_regs) w ≡ (ok tt, w'))
        × (w'.scheduler_state ≡ some s')
        × Inv s'
        × IsAwake t s'
  handle_ticks-wake f k w s timer here clock inv settled asleep near small =
      let (v, runs, end) =
        handle_ticks-Ticked f (k + max_timer_regs) timer w
          (record {
            state = s;
            here = here;
            inv = inv;
            clock = clock;
            settled = settled;
            sleeper = inl asleep;
          })
          small in
      let late = after_ticks (k + max_timer_regs) timer in
      let none_due : due time late ≡ 0 =
        ap (due time) (after_ticks-add k max_timer_regs timer)
        ∙ due-after_ticks_all (after_ticks k timer) time
            (omega (arith, near, after_ticks_time k timer)) in
      (
        v,
        end.state,
        runs,
        end.here,
        end.inv,
        elim end.sleeper [
          | inr awake ↦ awake
          | inl still ↦
              absurd
                (omega (arith, none_due, tally-due t time (h.items late.queue), still.registered))
        ],
      )
