-- ===== src/Task.antt =====
-- taskette/src/task.rs: handles, configurations and `current`.
use taskette.Base.{ℕ}
use taskette.Heapless.{DequeLib, IndexMapLib, BinaryHeapLib}
use taskette.Outcome.Run.{M, pure, ◌>>=◌}
use taskette.Kernel.{World}
use taskette.Scheduler.Tasks.{current_task_id}

pub record TaskHandle : Type 0 where
  pub id : ℕ

pub record TaskConfig : Type 0 where
  pub priority : ℕ

unfoldable pub default : TaskConfig
default = record { priority = 1 }

unfoldable pub with_priority : TaskConfig → ℕ → TaskConfig
with_priority config priority = record config { priority = priority }

module _ ⦃d : DequeLib⦄ ⦃m : IndexMapLib⦄ ⦃h : BinaryHeapLib⦄ where
  unfoldable pub current : M World TaskHandle
  current = do id ← current_task_id; pure (record { id = id })
