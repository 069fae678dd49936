-- ===== src/Demos/Rp2040.antt =====
-- The demo for the RP2040, examples/rp2040/examples/demo.rs: a task that blinks, and one that echoes what comes over
-- USB.
use taskette.Base.{ℕ, ◌*◌, ◌≤◌, ◌<◌, ◌≡◌, none, some, arith}
use taskette.Heapless.{DequeLib, IndexMapLib, BinaryHeapLib}
use taskette.Machine.{Registers}
use taskette.Outcome.{Features}
use taskette.Outcome.Run.{M, ◌>>=◌, ◌>>◌}
use taskette.Kernel.{World}
use taskette.Task.{default}
use taskette.Scheduler.Init.{Launch, default_config, with_tick_freq}
use taskette.Scheduler.Tasks.{StackRange}
use taskette.Contexts.{Context}
use taskette.Cortex.PendSv.{Cpu}
use taskette.Cortex.Stack.{arch}
use taskette.Demos.{Closure, Board, job, unwrap, new_scheduler, run_two}
use taskette.Demos.Booting.{IsReady, Apart, Enters, run_two-Boots}

abbrev pub tick_freq : ℕ
tick_freq = 1000

module _ ⦃d : DequeLib⦄ ⦃m : IndexMapLib⦄ ⦃h : BinaryHeapLib⦄ where
  -- The pins and the bus that the closures capture are made by other packages.
  unfoldable pub main :
      Features → ℕ → Board → Closure → Closure → StackRange → StackRange → M World Launch
  unfolding default_config with_tick_freq default
  main f padding board blink_task usb_task blink_task_stack usb_task_stack = do
    unwrap board.peripherals
    clock_freq ← unwrap board.system_clock
    unwrap board.core_peripherals
    scheduler ← new_scheduler f clock_freq (with_tick_freq default_config tick_freq)
    run_two f (arch padding) scheduler (job blink_task blink_task_stack default)
        (job usb_task usb_task_stack default)

  -- As for QEMU, on a board whose system clock runs at 1 kHz or more, and below 2^24 kHz.
  pub rp2040-Enters :
      (scratch : Registers) (f : Features) (padding : ℕ) (c : Cpu) (x : ℕ → Context) (w : World)
      (idle : StackRange) (task1 task2 : Closure) (task1_stack task2_stack : StackRange)
      (clock_freq : ℕ)
      → w.scheduler_state ≡ none
      → w.idle_task_stack ≡ some (idle.start, idle.end)
      → IsReady (job task1 task1_stack default)
      → IsReady (job task2 task2_stack default)
      → Apart task1_stack idle
      → Apart task2_stack idle
      → Apart task2_stack task1_stack
      → 1000 ≤ clock_freq
      → clock_freq < 0x1000000 * 1000
      → Enters scratch idle (job task1 task1_stack default) (job task2 task2_stack default) (
          main f padding
            (record {
              peripherals = some tt;
              system_clock = some clock_freq;
              core_peripherals = some tt;
            })
            task1
            task2
            task1_stack
            task2_stack
            w)
  unfolding main
  rp2040-Enters scratch f padding c x w idle task1 task2 task1_stack task2_stack clock_freq fresh
        idle_stack one two one_apart two_apart both_apart fast slow =
      run_two-Boots scratch f padding clock_freq (with_tick_freq default_config tick_freq) c x w
        idle fresh idle_stack (job task1 task1_stack default) (job task2 task2_stack default) one
        two one_apart two_apart both_apart (omega arith) (omega (arith, fast)) (omega (arith, slow))
