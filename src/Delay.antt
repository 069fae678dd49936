-- ===== src/Delay.antt =====
-- taskette-utils/src/delay.rs: delays in units of time, turned into ticks.
pub mod Rounding
pub mod Waiting
use taskette.Base.{ℕ, ◌+◌, ◌-◌, ◌/◌}
use taskette.Heapless.{DequeLib, IndexMapLib, BinaryHeapLib}
use taskette.Outcome.{Outcome, ok, err, panic, Features, add_word, mul_word}
use taskette.Outcome.Run.{M, pure, ◌>>=◌, expect}
use taskette.Kernel.{World}
use taskette.Scheduler.Init.{get_config}
use taskette.Timer.Ops.{current_time, wait_until}

pub record Delay : Type 0 where
  pub tick_freq : ℕ

-- `u64::div_ceil`
unfoldable pub div_ceil : ℕ → ℕ → ℕ
div_ceil a b = (a + b - 1) / b

-- `((amount * self.tick_freq) as u64).div_ceil(unit)`: the product is one of `u32`.
unfoldable pub ticks_for : Features → Delay → ℕ → ℕ → Outcome ℕ
unfolding div_ceil
ticks_for f delay unit amount = elim (mul_word f 32 amount delay.tick_freq) [
  | ok product ↦ ok (div_ceil product unit)
  | err e ↦ err e
  | panic ↦ panic
]

module _ ⦃d : DequeLib⦄ ⦃m : IndexMapLib⦄ ⦃h : BinaryHeapLib⦄ where
  unfoldable pub new : M World Delay
  new = do config ← get_config; pure (record { tick_freq = config.tick_freq })

  abbrev pub lift : {A : Type 0} → Outcome A → M World A
  lift r w = (r, w)

  unfoldable pub delay_ticks : Features → ℕ → M World (Unit {0})
  delay_ticks f ticks = do
    now ← expect current_time
    until ← lift (add_word f 64 now ticks)
    expect (wait_until until)

  unfoldable pub delay_in : Features → Delay → ℕ → ℕ → M World (Unit {0})
  delay_in f delay unit amount = do
    ticks ← lift (ticks_for f delay unit amount)
    delay_ticks f ticks

  unfoldable pub delay_ns : Features → Delay → ℕ → M World (Unit {0})
  unfolding delay_in
  delay_ns f delay ns = delay_in f delay 1_000_000_000 ns

  unfoldable pub delay_us : Features → Delay → ℕ → M World (Unit {0})
  unfolding delay_in
  delay_us f delay us = delay_in f delay 1_000_000 us

  unfoldable pub delay_ms : Features → Delay → ℕ → M World (Unit {0})
  unfolding delay_in
  delay_ms f delay ms = delay_in f delay 1_000 ms
