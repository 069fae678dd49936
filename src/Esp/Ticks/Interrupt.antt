-- ===== src/Esp/Ticks/Interrupt.antt =====
-- `systimer_handler` of taskette-esp-riscv/src/lib.rs. `clear_interrupt` is that of `esp_hal`'s
-- `PeriodicTimer`.
use taskette.Base.{ℕ, ◌+◌, ◌/◌, ◌<◌, ◌^◌, ◌≡◌, refl, none, some}
use taskette.Heapless.{DequeLib, IndexMapLib, BinaryHeapLib}
use taskette.Outcome.{Outcome, ok, err, panic, Features}
use taskette.Kernel.{World}
use taskette.Scheduler.Tasks.{Arch}
use taskette.Timer.Ops.{handle_tick}
use taskette.Program.{Good, Settled, Reach, on_tick, perform}
use taskette.Program.Ending.{Fine}
use taskette.Program.Safety.{Reach-Fine}
use taskette.Esp.Ticks.{Statics, setup, start_timer, start_timer-setup}

module _ (PeriodicTimer : Type 0) (begin : PeriodicTimer → ℕ → Outcome PeriodicTimer)
    (clear_interrupt : PeriodicTimer → PeriodicTimer) where
  abbrev pub Ticking : Type 0
  Ticking = Statics PeriodicTimer begin

  -- The critical section: an interrupt without a timer is unreachable.
  abbrev pub cleared : Ticking → Outcome Ticking
  cleared statics = elim statics.timer [
    | none ↦ panic
    | some timer ↦ ok (record statics { timer = some (clear_interrupt timer) })
  ]

  module _ ⦃d : DequeLib⦄ ⦃m : IndexMapLib⦄ ⦃h : BinaryHeapLib⦄ where
    abbrev pub then_tick :
        Features → Ticking → World → Outcome Ticking → Outcome (Unit {0}) × Ticking × World
    then_tick f statics w (ok s) = let (r, w') = handle_tick f w in (r, s, w')
    then_tick f statics w (err e) = (err e, statics, w)
    then_tick f statics w panic = (panic, statics, w)

    unfoldable pub systimer_handler :
        Features → Ticking → World → Outcome (Unit {0}) × Ticking × World
    systimer_handler f statics w = then_tick f statics w (cleared statics)

    -- In a good state where the task that runs is not blocked and the clock has not reached its end,
    -- with a frequency above 0 and a timer that starts: the timer is set up and started, and then an
    -- interrupt is cleared and does not panic; what it does to the program is `handle_tick`, which
    -- leaves a good state.
    pub systimer_handler-Fine :
        (f : Features) (arch : Arch) (timer started : PeriodicTimer) (clock_freq tick_freq : ℕ)
        (statics : Ticking) (w : World) (g : Good w)
        → 0 < tick_freq
        → begin timer (1_000_000 / tick_freq) ≡ ok started
        → Settled g.state
        → g.timer.time + 1 < 2 ^ 64
        → (s : Ticking) × (r : Outcome (Unit {0})) × (w' : World) × (start_timer PeriodicTimer begin
              (setup PeriodicTimer begin timer clock_freq tick_freq statics)
            ≡ ok s)
          × (systimer_handler f s w ≡ (r, record s { timer = some (clear_interrupt started) }, w'))
          × (handle_tick f w ≡ (r, w'))
          × Fine (r, w')
    unfolding systimer_handler perform
    systimer_handler-Fine f arch timer started clock_freq tick_freq statics w g above starts settled
          soon =
        (
          record statics { tick_freq = some tick_freq; timer = some started },
          (handle_tick f w).0,
          (handle_tick f w).1,
          (start_timer-setup PeriodicTimer begin timer started clock_freq tick_freq statics above
              starts).0,
          refl,
          refl,
          Reach-Fine f arch g Reach.start g.state g.timer g.here g.clock on_tick (settled, soon),
        )
