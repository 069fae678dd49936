-- ===== src/Contexts.antt =====
-- What the tasks of a multitasking kernel keep while they do not run, for any chip: each has a
-- context, which lies in a frame on its stack, where its control block points.
pub mod Keeping
pub mod Saving
pub mod Spawning
use taskette.Base.{ℕ, ◌+◌, ◌≤◌, ◌≡◌, ◌⊎◌, false, some, List, ◌==◌, arith}
use taskette.Heapless.{DequeLib, IndexMapLib, BinaryHeapLib}
use taskette.Memory.{Memory}
use taskette.Outcome.{Outcome, ok, err, panic, Features}
use taskette.Kernel.{TaskInfo, SchedulerState, World, idle_task_id}
use taskette.Scheduler.Switch.{select_task}
use taskette.Scheduler.Invariant.{Inv}

-- The registers, the stack pointer, and the size of the frame.
pub record Context : Type 0 where
  pub registers : List ℕ
  pub psp : ℕ
  pub size : ℕ

module _ ⦃d : DequeLib⦄ ⦃m : IndexMapLib⦄ (Holds : Memory → ℕ → Context → Type 0) where
  -- Each task's stack is `[low t, high t)`, apart from the others; the frame of a task that does
  -- not run lies in it, where its control block says, and holds its context.
  pub record Frames (s : SchedulerState) (memory : Memory) (x : ℕ → Context) (low high : ℕ → ℕ)
      : Type 0 where
    pub held :
        (t : ℕ) (i : TaskInfo)
        → m.get s.tasks t ≡ some i
        → (s.current_task == t) ≡ false
        → Holds memory i.stack_pointer (x t)
          × (low t ≤ i.stack_pointer)
          × (i.stack_pointer + (x t).size ≤ high t)
    pub apart :
        (t u : ℕ) (i j : TaskInfo)
        → m.get s.tasks t ≡ some i
        → m.get s.tasks u ≡ some j
        → (t == u) ≡ false
        → (high t ≤ low u) ⊎ (high u ≤ low t)
    -- The task that runs may be gone from the table.
    pub current_apart :
        (u : ℕ) (j : TaskInfo)
        → m.get s.tasks u ≡ some j
        → (s.current_task == u) ≡ false
        → (high s.current_task ≤ low u) ⊎ (high u ≤ low s.current_task)

  -- With no task but the idle one, which runs, no task waits for its context.
  pub alone-Frames :
      (s : SchedulerState) (memory : Memory) (x : ℕ → Context) (low high : ℕ → ℕ)
      → Inv s
      → s.current_task ≡ idle_task_id
      → s.last_task_id ≡ idle_task_id
      → Frames s memory x low high
  alone-Frames s memory x low high inv runs last = record {
    held = λ t i there other. ground (arith, inv.placed.known t i there, runs, last, other);
    apart = λ t u i j at_t at_u other.
        ground (arith, inv.placed.known t i at_t, inv.placed.known u j at_u, last, other);
    current_apart = λ u j at other. ground (arith, inv.placed.known u j at, runs, last, other);
  }

module _ ⦃d : DequeLib⦄ ⦃m : IndexMapLib⦄ ⦃h : BinaryHeapLib⦄ where
  abbrev pub answer : Outcome ℕ × World → ℕ × Memory
  answer (ok p, w) = (p, w.memory)
  answer (err e, w) = (0, w.memory)
  answer (panic, w) = (0, w.memory)

  -- `select_task` as a context switch calls it; what stands for a call that panics, which does not
  -- return, is never used.
  abbrev pub kernel : Features → World → ℕ → Memory → ℕ × Memory
  kernel f w p memory = answer (select_task f p (record w { memory = memory }))
