-- ===== src/Cortex/System/Still.antt =====
-- What one turn of the system does to a task that waits, and to the system.
use taskette.Base.{ℕ, ◌-◌, ◌≡◌, false, some, ◌==◌}
use taskette.Heapless.{DequeLib, IndexMapLib, BinaryHeapLib}
use taskette.Machine.{Registers}
use taskette.Machine.Frames.{SameInside}
use taskette.Kernel.{TaskInfo}
use taskette.Cortex.PendSv.{sp}
use taskette.Cortex.Multitasking.Variants.{core_context}
use taskette.Cortex.System.{Machine, Sound}

module _ ⦃d : DequeLib⦄ ⦃m : IndexMapLib⦄ ⦃h : BinaryHeapLib⦄ where
  -- Task `t` waits, with the context and the stack that it had.
  pub record Still (t : ℕ) (a b : Machine) : Type 0 where
    pub info : TaskInfo
    pub there : m.get b.state.tasks t ≡ some info
    pub same_context : b.contexts t ≡ a.contexts t
    pub same_low : b.low t ≡ a.low t
    pub same_high : b.high t ≡ a.high t
    pub stack : SameInside (a.low t) (a.high t - a.low t) a.cpu.memory b.cpu.memory

  pub record Stepped (scratch : Registers) (a b : Machine) : Type 0 where
    pub sound : Sound scratch b
    pub main : b.cpu.reg sp ≡ a.cpu.reg sp
    pub still :
        (t : ℕ) (i : TaskInfo)
        → m.get a.state.tasks t ≡ some i
        → (a.state.current_task == t) ≡ false
        → Still t a b
    -- A task that runs after the turn, and did not before, has its context.
    pub arrives :
        (t : ℕ)
        → (a.state.current_task == t) ≡ false
        → b.state.current_task ≡ t
        → (core_context b.cpu ≡ (a.contexts t).registers) × (b.cpu.psp ≡ (a.contexts t).psp)
