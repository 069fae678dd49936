-- ===== src/Demos/Benchmark.antt =====
-- The benchmark for Cortex-M, examples/benchmark-cortex-m: two tasks of priority 1 that yield to
-- each other, and src/wrapper.rs, which sets up either board.
pub mod Yielding
use taskette.Base.{ℕ, ◌*◌, ◌≤◌, ◌<◌, ◌≡◌, none, some, arith}
use taskette.Heapless.{DequeLib, IndexMapLib, BinaryHeapLib}
use taskette.Machine.{Registers}
use taskette.Outcome.{Features}
use taskette.Outcome.Run.{M, ◌>>=◌, ◌>>◌}
use taskette.Kernel.{World}
use taskette.Task.{TaskConfig, default, with_priority}
use taskette.Scheduler.Init.{Handle, Launch, default_config, with_tick_freq}
use taskette.Scheduler.Tasks.{StackRange}
use taskette.Contexts.{Context}
use taskette.Cortex.PendSv.{Cpu}
use taskette.Cortex.Stack.{arch}
use taskette.Demos.{Closure, Board, job, unwrap, new_scheduler, run_two}
use taskette.Demos.Booting.{IsReady, Apart, Enters, run_two-Boots}

abbrev pub tick_freq : ℕ
tick_freq = 1000

abbrev pub config : TaskConfig
config = with_priority default 1

module _ ⦃d : DequeLib⦄ ⦃m : IndexMapLib⦄ ⦃h : BinaryHeapLib⦄ where
  -- `wrapper::init_scheduler` for the RP2040.
  unfoldable pub init_scheduler : Features → Board → ℕ → M World Handle
  unfolding default_config with_tick_freq
  init_scheduler f board tick_freq = do
    unwrap board.peripherals
    clock_freq ← unwrap board.system_clock
    unwrap board.core_peripherals
    new_scheduler f clock_freq (with_tick_freq default_config tick_freq)

  -- And the one for the RP235x, which differs in the packages only.
  unfoldable pub init_scheduler_rp235x : Features → Board → ℕ → M World Handle
  unfolding default_config with_tick_freq
  init_scheduler_rp235x f board tick_freq = do
    unwrap board.peripherals
    clock_freq ← unwrap board.system_clock
    unwrap board.core_peripherals
    new_scheduler f clock_freq (with_tick_freq default_config tick_freq)

  unfoldable pub main :
      Features → ℕ → Board → Closure → Closure → StackRange → StackRange → M World Launch
  unfolding init_scheduler default with_priority
  main f padding board task1_func task2_func task1_stack task2_stack = do
    scheduler ← init_scheduler f board tick_freq
    run_two f (arch padding) scheduler (job task1_func task1_stack config)
        (job task2_func task2_stack config)

  -- As for QEMU, on a board whose system clock runs at 1 kHz or more, and below 2^24 kHz.
  pub benchmark-Enters :
      (scratch : Registers) (f : Features) (padding : ℕ) (c : Cpu) (x : ℕ → Context) (w : World)
      (idle : StackRange) (task1 task2 : Closure) (task1_stack task2_stack : StackRange)
      (clock_freq : ℕ)
      → w.scheduler_state ≡ none
      → w.idle_task_stack ≡ some (idle.start, idle.end)
      → IsReady (job task1 task1_stack config)
      → IsReady (job task2 task2_stack config)
      → Apart task1_stack idle
      → Apart task2_stack idle
      → Apart task2_stack task1_stack
      → 1000 ≤ clock_freq
      → clock_freq < 0x1000000 * 1000
      → Enters scratch idle (job task1 task1_stack config) (job task2 task2_stack config) (
          main f padding
            (record {
              peripherals = some tt;
              system_clock = some clock_freq;
              core_peripherals = some tt;
            })
            task1
            task2
            task1_stack
            task2_stack
            w)
  unfolding main
  benchmark-Enters scratch f padding c x w idle task1 task2 task1_stack task2_stack clock_freq fresh
        idle_stack one two one_apart two_apart both_apart fast slow =
      run_two-Boots scratch f padding clock_freq (with_tick_freq default_config tick_freq) c x w
        idle fresh idle_stack (job task1 task1_stack config) (job task2 task2_stack config) one two
        one_apart two_apart both_apart (omega arith) (omega (arith, fast)) (omega (arith, slow))
