-- ===== src/Program.antt =====
-- The program as a whole: what tasks and interrupts do between two switches, as calls of the
-- functions of scheduler.rs and timer.rs, and the states that any sequence of calls reaches.
pub mod Keeping
pub mod Ending
pub mod Calls
pub mod Safety
pub mod Boot
pub mod Sleeping
use taskette.Base.{
  ℕ, suc, ◌+◌, ◌^◌, ◌<◌, ◌≡◌, ◌≢◌, Bool, true, false, Option, none, some, List, is_some,
}
use taskette.Heapless.{DequeLib, IndexMapLib, BinaryHeapLib}
use taskette.Outcome.{Outcome, ok, err, panic, Features}
use taskette.Outcome.Run.{M, pure, ◌>>=◌, ◌>>◌}
use taskette.Kernel.{TaskInfo, SchedulerState, Timer, World, idle_task_id, usize_bits}
use taskette.Scheduler.Tasks.{
  Arch, StackRange, spawn, block_task, unblock_task, current_task_id, finish_task,
}
use taskette.Scheduler.Switch.{select_task}
use taskette.Scheduler.Invariant.{Inv}
use taskette.Scheduler.Invariant.Storing.{CanaryOk}
use taskette.Timer.Ops.{handle_tick, wait_until}

-- `switch_at` is the context switch of a task left at a stack pointer, `on_tick` the interrupt of
-- the timer, and `wake_up` what `Futex::wake` does to a task. The others are done by the task that
-- runs: `block_self` is what `Futex::wait` does, and `return_self` the return from its function.
pub data Call : Type 0 where
  switch_at wake_up sleep_until : ℕ → Call
  on_tick block_self return_self : Call
  spawn_task : ℕ → List ℕ → StackRange → ℕ → Call

module _ ⦃d : DequeLib⦄ ⦃m : IndexMapLib⦄ ⦃h : BinaryHeapLib⦄ where
  unfoldable pub perform : Features → Arch → Call → M World (Unit {0})
  perform f arch (switch_at sp) = select_task f sp >> pure tt
  perform f arch (wake_up t) = unblock_task t
  perform f arch (sleep_until time) = wait_until time
  perform f arch on_tick = handle_tick f
  perform f arch block_self = current_task_id >>= block_task
  perform f arch return_self = finish_task
  perform f arch (spawn_task pc arg stack priority) = spawn f arch pc arg stack priority >> pure tt

  -- The task that runs is not blocked, as it is between its own call that blocks it and the switch.
  abbrev pub Settled : SchedulerState → Type 0
  Settled s = (i : TaskInfo) → m.get s.tasks s.current_task ≡ some i → i.blocked ≡ false

  -- What the hardware and the callers keep to: a switch that is requested comes before anything
  -- else once the task that runs is blocked; the idle task neither blocks nor returns; a task
  -- returns once. The counters of ids and ticks have not overflowed.
  abbrev pub Allowed : Features → World → SchedulerState → Timer → Call → Type 0
  Allowed f w s timer (switch_at sp) = CanaryOk f w.memory s
  Allowed f w s timer (wake_up t) = Settled s
  Allowed f w s timer (sleep_until time) = Settled s × (s.current_task ≢ idle_task_id)
  Allowed f w s timer on_tick = Settled s × (timer.time + 1 < 2 ^ 64)
  Allowed f w s timer block_self = Settled s × (s.current_task ≢ idle_task_id)
  Allowed f w s timer return_self =
      Settled s × (s.current_task ≢ idle_task_id) × (is_some (m.get s.tasks s.current_task) ≡ true)
  Allowed f w s timer (spawn_task pc arg stack priority) =
      Settled s × (suc s.last_task_id < 2 ^ usize_bits)

  -- The scheduler and the timer are there, and the scheduler's invariant holds.
  pub record Good (w : World) : Type 0 where
    pub state : SchedulerState
    pub here : w.scheduler_state ≡ some state
    pub inv : Inv state
    pub timer : Timer
    pub clock : w.timer ≡ some timer

  module _ (f : Features) (arch : Arch) where
    pub data Step (w : World) (w' : World) : Type 0 where
      call :
          (c : Call) (s : SchedulerState) (timer : Timer) (r : Outcome (Unit {0}))
          → w.scheduler_state ≡ some s
          → w.timer ≡ some timer
          → Allowed f w s timer c
          → perform f arch c w ≡ (r, w')
          → Step w w'

    pub data Reach (w : World) : World → Type 0 where
      start : Reach w w
      later : {u v : World} → Reach w u → Step u v → Reach w v
