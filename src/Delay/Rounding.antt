-- ===== src/Delay/Rounding.antt =====
-- The number of ticks of a delay: rounded up, and too small where the product overflows.
use taskette.Base.{ℕ, ◌+◌, ◌*◌, ◌%◌, ◌^◌, ◌≤◌, ◌<◌, ◌≡◌, false, arith}
use taskette.Outcome.{ok, Features}
use taskette.Delay.{Delay, div_ceil, ticks_for}

div_ceil_bounds : (a b : ℕ) → 0 < b → (a ≤ div_ceil a b * b) × (div_ceil a b * b < a + b)
unfolding div_ceil
div_ceil_bounds a b h = grind arith

-- Without overflow the ticks are the least that last as long as asked for.
pub ticks_for_rounds_up :
    (f : Features) (delay : Delay) (unit amount : ℕ)
    → 0 < unit
    → amount * delay.tick_freq < 2 ^ 32
    → (n : ℕ) × (ticks_for f delay unit amount ≡ ok n)
      × (amount * delay.tick_freq ≤ n * unit)
      × (n * unit < amount * delay.tick_freq + unit)
unfolding ticks_for
ticks_for_rounds_up f delay unit amount pos small =
    let (low, high) = div_ceil_bounds (amount * delay.tick_freq) unit pos in
    (div_ceil (amount * delay.tick_freq) unit, ground (arith, small), low, high)

-- Where the product overflows, a release build waits for less time than was asked for, for every
-- unit up to a nanosecond.
pub ticks_for_short :
    (f : Features) (delay : Delay) (unit amount : ℕ)
    → f.overflow_checks ≡ false
    → 0 < unit
    → unit ≤ 1_000_000_000
    → 2 ^ 32 ≤ amount * delay.tick_freq
    → (n : ℕ) × (ticks_for f delay unit amount ≡ ok n) × (n * unit < amount * delay.tick_freq)
unfolding ticks_for
ticks_for_short f delay unit amount wraps pos small big =
    let wrapped : ℕ = amount * delay.tick_freq % 2 ^ 32 in
    let (low, high) = div_ceil_bounds wrapped unit pos in
    (div_ceil wrapped unit, ground (arith, big, wraps), omega arith)
