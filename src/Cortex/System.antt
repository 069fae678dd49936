-- ===== src/Cortex/System.antt =====
-- A chip of the Cortex-M crate as a whole, with the handler of v7m: the processor, the program's
-- state, and what happens to them, one step at a time.
pub mod Still
pub mod Spawning
pub mod Handling
pub mod Steps
pub mod Booting
pub mod Resuming
use taskette.Base.{
  ℕ, suc, ◌+◌, ◌-◌, ◌%◌, ◌^◌, ◌≤◌, ◌<◌, ◌≡◌, ◌⊎◌, true, false, some, List, ◌==◌, length, update,
}
use taskette.Heapless.{DequeLib, IndexMapLib, BinaryHeapLib}
use taskette.Machine.{Registers, padded}
use taskette.Machine.Frames.{SameInside}
use taskette.Outcome.{Outcome, ok, Features}
use taskette.Kernel.{
  TaskInfo, SchedulerState, Timer, World, max_priority, max_num_tasks, usize_bits,
}
use taskette.Scheduler.Tasks.{StackRange, spawn}
use taskette.Scheduler.Switch.{select_task}
use taskette.Scheduler.Invariant.{Inv}
use taskette.Scheduler.Invariant.Storing.{CanaryOk}
use taskette.Program.{Call, perform, Allowed}
use taskette.Program.Keeping.{IsQuiet}
use taskette.Cortex.PendSv.{Cpu, sp, v7m_save, v7m_restore, pend_sv}
use taskette.Cortex.PendSv.Contexts.{after}
use taskette.Cortex.Stack.{arch}
use taskette.Contexts.{Context, kernel}
use taskette.Cortex.Multitasking.{IsRunnable, context_of, CpuFrames}
use taskette.Cortex.Multitasking.Variants.{v7m-Handler, first_context}

module _ ⦃d : DequeLib⦄ ⦃m : IndexMapLib⦄ ⦃h : BinaryHeapLib⦄ where
  -- `state` and `timer` are those in the world. `contexts` is what each task that waits is to be
  -- continued with, and its stack is `[low, high)`: no code reads these three.
  pub record Machine : Type 0 where
    pub cpu : Cpu
    pub world : World
    pub state : SchedulerState
    pub timer : Timer
    pub contexts : ℕ → Context
    pub low : ℕ → ℕ
    pub high : ℕ → ℕ

  module _ (scratch : Registers) where
    -- Processor and kernel see one memory, the kernel is in a good state, and each task that does
    -- not run has its context in a frame on its own stack, apart from the others.
    pub record Sound (a : Machine) : Type 0 where
      pub here : a.world.scheduler_state ≡ some a.state
      pub clock : a.world.timer ≡ some a.timer
      pub inv : Inv a.state
      pub shared : a.cpu.memory ≡ a.world.memory
      pub frames : CpuFrames (v7m-Handler scratch) a.state a.world.memory a.contexts a.low a.high

  -- A stack and an entry point with which `spawn` succeeds.
  pub record Fresh (a : Machine) (pc : ℕ) (arg : List ℕ) (stack : StackRange) (priority : ℕ)
      : Type 0 where
    pub room : stack.start + 16 + padded 8 (length arg) + 72 ≤ stack.end
    pub small : stack.end < 2 ^ 32
    pub aligned : stack.end % 8 ≡ 0
    pub word : pc < 2 ^ 32
    pub away :
        (u : ℕ) (j : TaskInfo)
        → m.get a.state.tasks u ≡ some j
        → (stack.end ≤ a.low u) ⊎ (a.high u ≤ stack.start)
    pub current_away :
        (stack.end ≤ a.low a.state.current_task) ⊎ (a.high a.state.current_task ≤ stack.start)
    pub ready : priority ≤ max_priority
    pub space : length (m.keys a.state.tasks) < max_num_tasks
    pub unwrapped : suc a.state.last_task_id < 2 ^ usize_bits

  module _ (scratch : Registers) (f : Features) where
    abbrev pub saved : Machine → Cpu
    saved a = after (kernel f a.world) scratch v7m_save a.cpu

    -- The processor after the handler.
    abbrev pub switched : Machine → Cpu
    switched a = after (kernel f a.world) scratch (pend_sv v7m_save v7m_restore) a.cpu

    -- The handler runs: the task that runs has room for its frame, and its canary is intact.
    pub data Switch (a : Machine) : Machine → Type 0 where
      handled :
          (next : ℕ) (w : World) (s : SchedulerState)
          → IsRunnable (v7m-Handler scratch) a.cpu
          → a.low a.state.current_task ≤ a.cpu.psp - 40
          → a.cpu.psp ≤ a.high a.state.current_task
          → CanaryOk f (saved a).memory a.state
          → select_task f (a.cpu.psp - 40) (record (a.world) { memory = (saved a).memory })
            ≡ (ok next, w)
          → w.scheduler_state ≡ some s
          → Switch a (record a {
            cpu = switched a;
            world = record w { memory = (switched a).memory };
            state = s;
            contexts =
                update a.contexts a.state.current_task (context_of (v7m-Handler scratch) a.cpu);
          })

    module _ (padding : ℕ) where
      -- A task works, with any registers, and writes nothing to the stacks of the others; or a call
      -- or an interrupt changes the kernel's state, and the registers are as before; or there is a
      -- new task; or the handler runs.
      pub data Turn (a : Machine) : Machine → Type 0 where
        works :
            (c : Cpu)
            → c.reg sp ≡ a.cpu.reg sp
            → ((t : ℕ) (i : TaskInfo)
                → m.get a.state.tasks t ≡ some i
                → (a.state.current_task == t) ≡ false
                → SameInside (a.low t) (a.high t - a.low t) a.cpu.memory c.memory)
            → Turn a (record a { cpu = c; world = record (a.world) { memory = c.memory } })
        calls :
            (c : Call) (r : Outcome (Unit {0})) (w : World) (s : SchedulerState) (timer : Timer)
            → IsQuiet c
            → Allowed f a.world a.state a.timer c
            → perform f (arch padding) c a.world ≡ (r, w)
            → w.scheduler_state ≡ some s
            → w.timer ≡ some timer
            → Turn a (record a { world = w; state = s; timer = timer })
        spawns :
            (pc : ℕ) (arg : List ℕ) (stack : StackRange) (priority id : ℕ) (w : World)
            (s : SchedulerState) (timer : Timer) (i : TaskInfo)
            → Fresh a pc arg stack priority
            → spawn f (arch padding) pc arg stack priority a.world ≡ (ok id, w)
            → w.scheduler_state ≡ some s
            → w.timer ≡ some timer
            → m.get s.tasks id ≡ some i
            → Turn a (record a {
              cpu = record (a.cpu) { memory = w.memory };
              world = w;
              state = s;
              timer = timer;
              contexts = update a.contexts id (first_context scratch i.stack_pointer);
              low = update a.low id stack.start;
              high = update a.high id stack.end;
            })
        switches : {b : Machine} → Switch a b → Turn a b

      -- Any turns, of which none starts with task `t` running.
      pub data Away (t : ℕ) (b : Machine) : Machine → Type 0 where
        start : Away t b b
        later :
            {c e : Machine}
            → Away t b c
            → (c.state.current_task == t) ≡ false
            → Turn c e
            → Away t b e
