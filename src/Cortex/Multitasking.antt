-- ===== src/Cortex/Multitasking.antt =====
-- `PendSV` together with the kernel's `select_task`: each task has a context, the registers and the
-- stack pointer that it was interrupted with, and a switch changes the one that runs.
pub mod Switching
pub mod Variants
pub mod Spawning
pub mod Booting
use taskette.Base.{
  ℕ, ◌+◌, ◌-◌, ◌^◌, ◌≤◌, ◌<◌, ◌≡◌, refl, ap, sym, ◌∙◌, ◌⊎◌, inl, inr, Bool, true, false, Option,
  none, some, List, ◌∷◌, ◌++◌, arith, ◌==◌, if◌then◌else◌, update, Bool-cases, Option-cases, eqb→eq,
  eqb_refl,
}
use taskette.Heapless.{DequeLib, IndexMapLib, BinaryHeapLib}
use taskette.Memory.{Memory}
use taskette.Machine.{Registers}
use taskette.Machine.Frames.{SameInside}
use taskette.Outcome.{Outcome, ok, err, panic, Features}
use taskette.Kernel.{TaskInfo, SchedulerState, World, save}
use taskette.Scheduler.Switch.{select_task}
use taskette.Scheduler.Invariant.{Inv}
use taskette.Scheduler.Invariant.Storing.{left_at, CanaryOk}
use taskette.Scheduler.Invariant.Switching.{Switches, select_task-Switches}
use taskette.Cortex.PendSv.{Cpu, Instr, run, execute, pend_sv, bl_select_task, sp, call}
use taskette.Cortex.PendSv.Contexts.{after, run-append}
use taskette.Cortex.PendSv.Contexts
use taskette.Contexts.{Context, Frames}

-- One of the variants of the handler.
pub record Handler (scratch : Registers) (save_part restore_part : List Instr) (size : Cpu → ℕ)
    (context : Cpu → List ℕ) : Type 0 where
  pub switches :
      (select : ℕ → Memory → ℕ × Memory)
      → Contexts.Switches select scratch save_part restore_part size context
  -- What is saved does not depend on the function that is called afterwards.
  pub same_frame :
      (select select' : ℕ → Memory → ℕ × Memory) (c : Cpu)
      → (after select scratch save_part c).memory ≡ (after select' scratch save_part c).memory

module _ {scratch : Registers} {save_part restore_part : List Instr} {size : Cpu → ℕ}
    {context : Cpu → List ℕ} (v : Handler scratch save_part restore_part size context) where
  -- The frame at `p` holds a context: whatever else the processor and the memory hold, the second
  -- part of the handler restores it from there.
  unfoldable pub Holds : Memory → ℕ → Context → Type 0
  Holds m p x =
      (select : ℕ → Memory → ℕ × Memory) (c : Cpu)
      → SameInside p x.size m c.memory
      → c.reg 0 ≡ p
      → (context (after select scratch restore_part c) ≡ x.registers)
        × ((after select scratch restore_part c).psp ≡ x.psp)

  pub Holds-frame :
      (m m' : Memory) (p : ℕ) (x : Context) → SameInside p x.size m m' → Holds m p x → Holds m' p x
  unfolding Holds
  Holds-frame m m' p x same holds select c inside start =
      holds select c (λ b low high. inside b low high ∙ same b low high) start

  abbrev pub context_of : Cpu → Context
  context_of c = record { registers = context c; psp = c.psp; size = size c }

  pub record IsRunnable (c : Cpu) : Type 0 where
    pub room : size c ≤ c.psp
    pub small : c.psp < 2 ^ 32
    pub word : (r : ℕ) → c.reg r < 2 ^ 32
    pub fp_word : (r : ℕ) → c.fp r < 2 ^ 32

  -- What the first part of the handler has saved, the frame holds.
  pub saved-Holds :
      (select : ℕ → Memory → ℕ × Memory) (c : Cpu)
      → IsRunnable c
      → Holds (after select scratch save_part c).memory (c.psp - size c) (context_of c)
  unfolding Holds
  saved-Holds select c good select' c' inside start =
      (v.switches select').returns c c' good.room good.small good.word good.fp_word
        (λ b low high. inside b low high ∙ ap (λ (m : Memory). m b) (v.same_frame select select' c))
        start

  -- The tasks that do not run have their contexts in frames of this handler.
  abbrev pub CpuFrames :
      ⦃d : DequeLib⦄ ⦃m : IndexMapLib⦄
      → SchedulerState
      → Memory
      → (ℕ → Context)
      → (ℕ → ℕ)
      → (ℕ → ℕ)
      → Type 0
  CpuFrames = Frames Holds
