-- ===== src/Examples/Chips.antt =====
-- The theorems on the canary, the delays and the two crates of the chips, run at concrete inputs.
use taskette.Base.{ℕ, ◌+◌, ◌*◌, ◌≤◌, ◌<◌, ◌≡◌, refl, true, false, [], ◌∷◌, ◌↔◌, ◌⊎◌, arith}
use taskette.Heapless.Lists.{list_deque, list_map, list_heap}
use taskette.Outcome.{ok, panic, Features}
use taskette.Memory.{Memory, store_bytes, load_words, load_u32, store_words, store_u32}
use taskette.Scheduler.Canary.{check_stack_canary, fill_stack_canary}
use taskette.Scheduler.Canary.Detection.{Intact, check-fill_iff}
use taskette.Kernel.{SchedulerState, World, save}
use taskette.Scheduler.Switch.{select_task}
use taskette.Scheduler.Invariant.Switching
use taskette.Scheduler.Invariant.Overflow.{select_task_overflow}
use taskette.Delay.{Delay, ticks_for}
use taskette.Delay.Rounding.{ticks_for_short}
use taskette.Cortex.SysTick.{SysTick, setup, cycles_per_tick, setup_period}
use taskette.Cortex.PendSv.{v7m_save, v7m_restore, fpu_save, fpu_restore}
use taskette.Cortex.PendSv.Contexts.{Switches}
use taskette.Cortex.PendSv.Variants.{context, v7m-Switches}
use taskette.Cortex.PendSv.Fpu.{frame_size, fpu-Switches}
use taskette.Cortex.PendSv.Fpu
use taskette.Examples.{blank, world, running, clock, worker, running-Inv, running_runs}

-- The stack of a task from address 2000 up, after a use of it down to the address `a`.
abbrev used_down_to : ℕ → Memory
used_down_to a = store_bytes (fill_stack_canary blank 2000) a (7 ∷ 9 ∷ 11 ∷ [])

canary_kept : check_stack_canary (used_down_to 2016) 2000 ≡ false
unfolding check_stack_canary fill_stack_canary load_words load_u32 store_words store_u32
canary_kept = refl

overflow_found : check_stack_canary (used_down_to 2015) 2000 ≡ true
unfolding check_stack_canary fill_stack_canary load_words load_u32 store_words store_u32
overflow_found = refl

used_bytes : (b : ℕ) → used_down_to 2015 b < 256
unfolding fill_stack_canary store_words store_u32
used_bytes b = ground arith

check-fill_iff_example :
    (check_stack_canary (used_down_to 2015) 2000 ≡ false) ↔ Intact blank (used_down_to 2015) 2000
check-fill_iff_example = check-fill_iff blank (used_down_to 2015) 2000 used_bytes

abbrev guarded : Features
guarded = record { stack_canary = true; round_robin = false; overflow_checks = true }

-- Task 1 runs, and has used more than its stack.
abbrev overflowed : World
overflowed = record (world running clock) { memory = used_down_to 2015 }

select_task_overflow_example :
    (Intact blank overflowed.memory 2000
      × ((sp' : ℕ) × (s' : SchedulerState) × (select_task guarded 2100 overflowed
            ≡ (ok sp', save overflowed s'))
          × Switching.Switches running 2100 s' sp'))
    ⊎ ((¬ Intact blank overflowed.memory 2000)
        × (select_task guarded 2100 overflowed ≡ (panic, overflowed)))
select_task_overflow_example =
    select_task_overflow guarded overflowed running worker blank 2100 refl running-Inv running_runs
      refl refl used_bytes

abbrev per_ms : Delay
per_ms = record { tick_freq = 1000 }

abbrev release : Features
release = record { stack_canary = false; round_robin = false; overflow_checks = false }

ticks_for_short_example :
    (n : ℕ) × (ticks_for release per_ms 1_000_000 5_000_000 ≡ ok n)
    × (n * 1_000_000 < 5_000_000 * 1000)
ticks_for_short_example =
    ticks_for_short release per_ms 1_000_000 5_000_000 refl (omega arith) (omega arith)
      (omega arith)

setup_period_example :
    (t : SysTick) × (setup 12_000_000 1000 ≡ ok t)
    × (0 < t.reload)
    × (t.reload < 16777216)
    × (12_000_000 < cycles_per_tick t * 1000)
    × (cycles_per_tick t * 1000 ≤ 12_000_000 + 1000)
setup_period_example = setup_period 12_000_000 1000 (omega arith) (omega arith) (omega arith)

v7m-Switches_example :
    Switches
      (λ p m. (p, m))
      (λ _. 0)
      v7m_save
      v7m_restore
      (λ _. 40)
      (context (λ p m. (p, m)) (λ _. 0))
v7m-Switches_example = v7m-Switches (λ p m. (p, m)) (λ _. 0)

fpu-Switches_example : Switches (λ p m. (p, m)) (λ _. 0) fpu_save fpu_restore frame_size Fpu.context
fpu-Switches_example = fpu-Switches (λ p m. (p, m)) (λ _. 0)
