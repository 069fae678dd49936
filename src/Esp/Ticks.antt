-- ===== src/Esp/Ticks.antt =====
-- `_taskette_setup` and `_taskette_start_timer` of taskette-esp-riscv/src/lib.rs. The timer and its
-- driver are those of `esp_hal`; `start` is its `PeriodicTimer::start`, which may fail.
pub mod Interrupt
use taskette.Base.{ℕ, zero, suc, ◌+◌, ◌*◌, ◌/◌, ◌≤◌, ◌<◌, ◌≡◌, Option, none, some, arith}
use taskette.Outcome.{Outcome, ok, panic, ◌>>=◌, expect}

module _ (PeriodicTimer : Type 0) (start : PeriodicTimer → ℕ → Outcome PeriodicTimer) where
  -- `TICK_FREQ` and `TIMER`.
  pub record Statics : Type 0 where
    pub tick_freq : Option ℕ
    pub timer : Option PeriodicTimer

  unfoldable pub setup : PeriodicTimer → ℕ → ℕ → Statics → Statics
  setup timer clock_freq tick_freq statics = record statics {
    tick_freq = some tick_freq;
    timer = some timer;
  }

  -- `1_000_000 / *tick_freq`, the period in microseconds.
  unfoldable pub period : ℕ → Outcome ℕ
  period zero = panic
  period (suc k) = ok (1_000_000 / suc k)

  unfoldable pub start_timer : Statics → Outcome Statics
  unfolding period
  start_timer statics = elim statics.tick_freq [
    | none ↦ panic
    | some tick_freq ↦ elim statics.timer [
      | none ↦ panic
      | some timer ↦ (do
        micros ← period tick_freq
        started ← expect (start timer micros)
        ok (record statics { timer = some started }))
    ]
  ]

  -- With a frequency above 0 and a timer that starts, the period is the largest number of
  -- microseconds of which `tick_freq` fit into a second.
  pub start_timer-setup :
      (timer started : PeriodicTimer) (clock_freq tick_freq : ℕ) (statics : Statics)
      → 0 < tick_freq
      → start timer (1_000_000 / tick_freq) ≡ ok started
      → (start_timer (setup timer clock_freq tick_freq statics)
          ≡ ok (record statics { tick_freq = some tick_freq; timer = some started }))
        × (1_000_000 / tick_freq * tick_freq ≤ 1_000_000)
        × (1_000_000 < (1_000_000 / tick_freq + 1) * tick_freq)
  unfolding start_timer setup period
  start_timer-setup timer started clock_freq zero statics pos starts = absurd (omega (arith, pos))
  start_timer-setup timer started clock_freq (suc k) statics pos starts =
      (rw starts, grind arith, grind arith)
