-- ===== src/Demos/Blink.antt =====
-- `blink_task_func` of the demos for the RP2040 and the RP235x: half a period of the loop, up to
-- the point where the task is blocked. The pin is that of the board's package.
use taskette.Base.{
  ℕ, ◌+◌, ◌^◌, ◌<◌, ◌≡◌, ◌≢◌, refl, subst, Option, none, some, arith, length, false,
}
use taskette.Heapless.{DequeLib, IndexMapLib, BinaryHeapLib}
use taskette.Outcome.{Outcome, panic, Features}
use taskette.Kernel.{TaskInfo, Timer, SchedulerState, World, max_timer_regs, idle_task_id}
use taskette.Scheduler.Invariant.{Inv}
use taskette.Delay.{Delay, delay_ms}
use taskette.Delay.Waiting.{WaitsUntil, delay_ms-Waits}

module _ {Led : Type 0} (set : Led → Option Led) ⦃d : DequeLib⦄ ⦃m : IndexMapLib⦄
    ⦃h : BinaryHeapLib⦄ where
  abbrev with_led : Led → Outcome (Unit {0}) × World → Outcome (Unit {0}) × Led × World
  with_led led (r, w) = (r, led, w)

  -- `set` is `set_high` in the first half of the period and `set_low` in the second.
  unfoldable pub blink_half : Features → Delay → Led → World → Outcome (Unit {0}) × Led × World
  blink_half f delay led w = elim (set led) [
    | none ↦ (panic, led, w)
    | some led' ↦ with_led led' (delay_ms f delay 500 w)
  ]

  module _ (w : World) (s : SchedulerState) (timer : Timer) (here : w.scheduler_state ≡ some s)
      (clock : w.timer ≡ some timer) (inv : Inv s) (f : Features) (i : TaskInfo)
      (room : length (h.items timer.queue) < max_timer_regs)
      (there : m.get s.tasks s.current_task ≡ some i) (ready : i.blocked ≡ false)
      (not_idle : s.current_task ≢ idle_task_id) where
    -- With a kernel that ticks once a millisecond, and a pin that can be set: the pin is set, and
    -- the task waits for the tick in half a second.
    pub blink_half-Waits :
        (led led' : Led)
        → set led ≡ some led'
        → timer.time + 2 ^ 32 < 2 ^ 64
        → (r : Outcome (Unit {0})) × (w' : World) × (blink_half f
              (record { tick_freq = 1000 })
              led
              w
            ≡ (r, led', w'))
          × WaitsUntil w s timer here clock inv f i room there ready not_idle
              (timer.time + 500)
              (r, w')
    unfolding blink_half
    blink_half-Waits led led' lit small =
        let (ticks, enough, tight, waits) =
          delay_ms-Waits w s timer here clock inv f i room there ready not_idle
            (record { tick_freq = 1000 }) 500 (omega arith) (omega arith) small in
        let half : ticks ≡ 500 = omega (arith, enough, tight) in
        (
          (delay_ms f (record { tick_freq = 1000 }) 500 w).0,
          (delay_ms f (record { tick_freq = 1000 }) 500 w).1,
          rw (blink_half, lit) refl,
          subst
              (λ (n : ℕ).
                WaitsUntil w s timer here clock inv f i room there ready not_idle (timer.time + n)
                  (delay_ms f (record { tick_freq = 1000 }) 500 w))
              half waits,
        )
