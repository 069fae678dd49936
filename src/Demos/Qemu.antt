-- ===== src/Demos/Qemu.antt =====
-- The demo for QEMU, examples/qemu/examples/demo.rs: two tasks that print once a second.
use taskette.Base.{ℕ, ◌≡◌, Option, none, some, arith}
use taskette.Heapless.{DequeLib, IndexMapLib, BinaryHeapLib}
use taskette.Machine.{Registers}
use taskette.Outcome.{Features}
use taskette.Outcome.Run.{M, ◌>>=◌, ◌>>◌}
use taskette.Kernel.{World, SchedulerConfig}
use taskette.Task.{default}
use taskette.Scheduler.Init.{Launch, default_config, with_tick_freq}
use taskette.Scheduler.Tasks.{StackRange}
use taskette.Contexts.{Context}
use taskette.Cortex.PendSv.{Cpu}
use taskette.Cortex.Stack.{arch}
use taskette.Demos.{Closure, job, unwrap, new_scheduler, run_two}
use taskette.Demos.Booting.{IsReady, Apart, Enters, run_two-Boots}

abbrev pub tick_freq : ℕ
tick_freq = 100

abbrev pub clock_freq : ℕ
clock_freq = 168_000_000

abbrev pub config : SchedulerConfig
config = with_tick_freq default_config tick_freq

module _ ⦃d : DequeLib⦄ ⦃m : IndexMapLib⦄ ⦃h : BinaryHeapLib⦄ where
  -- `set_logger` and `Peripherals::take` of other packages succeed once each.
  unfoldable pub main :
      Features
      → ℕ
      → Option (Unit {0})
      → Option (Unit {0})
      → Closure
      → Closure
      → StackRange
      → StackRange
      → M World Launch
  unfolding default_config with_tick_freq default
  main f padding logger peripherals task1 task2 task1_stack task2_stack = do
    unwrap logger
    unwrap peripherals
    scheduler ← new_scheduler f clock_freq config
    run_two f (arch padding) scheduler (job task1 task1_stack default)
        (job task2 task2_stack default)

  -- Before the scheduler is there, with the idle task's stack still to be taken, where the
  -- logger can be set and the peripherals can be taken, and with two stacks
  -- that have room for the closures and lie apart, from each other and from the idle task's stack:
  -- the demo gets to its idle task, neither with an error nor with a panic. The system is sound and
  -- has started, and the two tasks are ready, on their stacks and with the priority 1.
  pub main-Enters :
      (scratch : Registers) (f : Features) (padding : ℕ) (c : Cpu) (x : ℕ → Context) (w : World)
      (idle : StackRange) (task1 task2 : Closure) (task1_stack task2_stack : StackRange)
      → w.scheduler_state ≡ none
      → w.idle_task_stack ≡ some (idle.start, idle.end)
      → IsReady (job task1 task1_stack default)
      → IsReady (job task2 task2_stack default)
      → Apart task1_stack idle
      → Apart task2_stack idle
      → Apart task2_stack task1_stack
      → Enters scratch idle
          (job task1 task1_stack default)
          (job task2 task2_stack default)
          (main f padding (some tt) (some tt) task1 task2 task1_stack task2_stack w)
  unfolding main
  main-Enters scratch f padding c x w idle task1 task2 task1_stack task2_stack fresh idle_stack one
        two one_apart two_apart both_apart =
      run_two-Boots scratch f padding clock_freq config c x w idle fresh idle_stack
        (job task1 task1_stack default) (job task2 task2_stack default) one two one_apart two_apart
        both_apart (omega arith) (omega arith) (omega arith)
