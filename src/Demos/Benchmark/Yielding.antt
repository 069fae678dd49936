-- ===== src/Demos/Benchmark/Yielding.antt =====
-- The two tasks of the benchmarks, examples/benchmark-cortex-m/src/main.rs and, in the same words,
-- examples/benchmark-esp-riscv/src/main.rs: what they do between two readings of the clock, and what
-- the first one prints.
use taskette.Base.{ℕ, zero, suc, ◌-◌, ◌*◌, ◌/◌, ◌^◌, ◌≤◌, ◌<◌, ◌≡◌, refl, arith, le→leb, lt→ltb}
use taskette.Heapless.{DequeLib, IndexMapLib}
use taskette.Memory.{Memory}
use taskette.Outcome.{Outcome, ok, Features, ◌>>=◌, sub_word, mul_word}
use taskette.Kernel.{SchedulerState, num_queues}
use taskette.Scheduler.Switch.{switch}
use taskette.Scheduler.RoundRobin.{Pair, Pair-swaps}

abbrev pub switch_count : ℕ
switch_count = 1000

abbrev pub tick_freq : ℕ
tick_freq = 1000

-- `time_ms`, and the time of one switch in microseconds, from the two readings of the clock.
unfoldable pub report : Features → ℕ → ℕ → Outcome (ℕ × ℕ)
report f start_time end_time = sub_word f 64 end_time start_time >>= λ diff.
    mul_word f 64 1000 diff >>= λ scaled. mul_word f 64 1000 (scaled / tick_freq) >>= λ scaled'.
    ok (scaled / tick_freq, scaled' / switch_count)

module _ ⦃d : DequeLib⦄ ⦃m : IndexMapLib⦄ (f : Features) (memory : Memory) where
  -- `task1_func` yields, left at the first stack pointer of a round, and then `task2_func` does,
  -- left at the second.
  unfoldable pub yields : (ℕ → ℕ × ℕ) → ℕ → SchedulerState → Outcome SchedulerState
  yields at zero s = ok s
  yields at (suc rounds) s = do
    (sp, s1) ← switch f memory s (at rounds).0
    (sp', s2) ← switch f memory s1 (at rounds).1
    yields at rounds s2

  -- In a good state where task `a` runs and is ready, `b` is the only other ready task of its
  -- priority, none is ready above that, and all canaries are intact: any number of rounds, in each of
  -- which `a` yields and then `b`, with no other call in between, succeeds, and ends in such a state,
  -- where `a` runs and `b` waits.
  pub yields-Pair :
      (at : ℕ → ℕ × ℕ) (rounds p a b : ℕ) (s : SchedulerState)
      → p < num_queues
      → Pair f memory p a b s
      → (s' : SchedulerState) × (yields at rounds s ≡ ok s') × Pair f memory p a b s'
  unfolding yields
  yields-Pair at zero p a b s small pair = (s, refl, pair)
  yields-Pair at (suc rounds) p a b s small pair =
      let (sp, s1, first, swapped) = Pair-swaps f memory p a b s (at rounds).0 small pair in
      let (sp', s2, second, same) = Pair-swaps f memory p b a s1 (at rounds).1 small swapped in
      let (s', rest, end) = yields-Pair at rounds p a b s2 small same in
      (s', rw (yields, first, second) rest, end)

-- As long as nothing overflows, the ticks that have passed are printed, in milliseconds, and the
-- same number for the microseconds of one of the thousand switches.
pub report_ticks :
    (f : Features) (start_time end_time : ℕ)
    → start_time ≤ end_time
    → 1000 * (end_time - start_time) < 2 ^ 64
    → report f start_time end_time ≡ ok (end_time - start_time, end_time - start_time)
unfolding report
report_ticks f start_time end_time later small =
    let same : 1000 * (end_time - start_time) / tick_freq ≡ end_time - start_time = grind arith in
    rw
      (
        report,
        le→leb start_time end_time later,
        lt→ltb (1000 * (end_time - start_time)) (2 ^ 64) small,
        same,
        lt→ltb (1000 * (end_time - start_time)) (2 ^ 64) small,
        same,
      )
      refl
