-- ===== src/Cortex/Entry.antt =====
-- The functions of taskette-cortex-m/src/lib.rs that pass on to the kernel.
use taskette.Base.{ℕ, Option}
use taskette.Heapless.{DequeLib, IndexMapLib, BinaryHeapLib}
use taskette.Outcome.{Features}
use taskette.Outcome.Run.{M}
use taskette.Kernel.{World, SchedulerConfig}
use taskette.Scheduler.Init.{Handle, init}
use taskette.Timer.Ops.{handle_tick}

module _ ⦃d : DequeLib⦄ ⦃m : IndexMapLib⦄ ⦃h : BinaryHeapLib⦄ where
  -- The peripherals that it takes are not used.
  unfoldable pub init_scheduler : Features → ℕ → SchedulerConfig → M World (Option Handle)
  init_scheduler f clock_freq config = init f clock_freq config

  -- The exception `SysTick`.
  unfoldable pub sys_tick : Features → M World (Unit {0})
  sys_tick f = handle_tick f
