-- ===== src/Cortex/SysTick.antt =====
-- `_taskette_setup` and `_taskette_start_timer` of taskette-cortex-m/src/lib.rs.
use taskette.Base.{
  ℕ, zero, suc, ◌+◌, ◌*◌, ◌/◌, ◌≤◌, ◌<◌, ◌^◌, ◌≡◌, Bool, true, false, leb, arith, if◌then◌else◌,
}
use taskette.Outcome.{Outcome, ok, panic}

-- The timer's registers, as far as they are set.
pub record SysTick : Type 0 where
  pub reload : ℕ
  pub interrupt_enabled : Bool
  pub counter_enabled : Bool

-- A frequency of 0 is a division by 0; a period beyond 24 bits fails the assertion.
unfoldable pub setup : ℕ → ℕ → Outcome SysTick
setup clock_freq zero = panic
setup clock_freq (suc k) =
    if leb (clock_freq / suc k) 0xFFFFFF
    then ok
        (record { reload = clock_freq / suc k; interrupt_enabled = true; counter_enabled = false })
    else panic

unfoldable pub start_timer : SysTick → SysTick
start_timer t = record t { counter_enabled = true }

-- The counter runs from the reload value down to 0, so that a tick takes one cycle more.
abbrev pub cycles_per_tick : SysTick → ℕ
cycles_per_tick t = t.reload + 1

-- With a frequency above 0 and at most the clock's, and a period below 2^24, the setup succeeds.
-- The ticks are slower than asked for: `tick_freq` of them take more than `clock_freq` cycles,
-- which are a second, by at most `tick_freq` cycles.
pub setup_period :
    (clock_freq tick_freq : ℕ)
    → 0 < tick_freq
    → tick_freq ≤ clock_freq
    → clock_freq < 0x1000000 * tick_freq
    → (t : SysTick) × (setup clock_freq tick_freq ≡ ok t)
      × (0 < t.reload)
      × (t.reload < 2 ^ 24)
      × (clock_freq < cycles_per_tick t * tick_freq)
      × (cycles_per_tick t * tick_freq ≤ clock_freq + tick_freq)
unfolding setup
setup_period clock_freq zero pos below fits = absurd (omega (arith, pos))
setup_period clock_freq (suc k) pos below fits =
    let small : clock_freq / suc k < 2 ^ 24 = grind arith in
    (
      record { reload = clock_freq / suc k; interrupt_enabled = true; counter_enabled = false },
      ground (arith, small),
      grind arith,
      small,
      grind arith,
      grind arith,
    )
