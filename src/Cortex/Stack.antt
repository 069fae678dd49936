-- ===== src/Cortex/Stack.antt =====
-- The stack that a new task starts with, taskette-cortex-m/src/lib.rs: the closure at the top,
-- below it the registers that the hardware restores, and below them those that `PendSV` restores.
pub mod Starting
use taskette.Base.{ℕ, ◌+◌, ◌*◌, ◌^◌, Bool, List, [], ◌∷◌, ◌++◌, if◌then◌else◌}
use taskette.Memory.{Memory}
use taskette.Machine.{push_aligned}
use taskette.Machine.Frames.{object}
use taskette.Outcome.{Outcome, ok, err, panic}
use taskette.Scheduler.Tasks.{Arch}
use taskette.Cortex.SysTick.{setup}

pub record HardwareSavedRegisters : Type 0 where
  pub r0 : ℕ
  pub r1 : ℕ
  pub r2 : ℕ
  pub r3 : ℕ
  pub r12 : ℕ
  pub lr : ℕ
  pub pc : ℕ
  pub xpsr : ℕ

-- `1 << 24` is the Thumb state.
abbrev pub from_pc_and_r0 : ℕ → ℕ → HardwareSavedRegisters
from_pc_and_r0 pc r0 = record {
  r0 = r0;
  r1 = 0;
  r2 = 0;
  r3 = 0;
  r12 = 0;
  lr = 0;
  pc = pc;
  xpsr = 2 ^ 24;
}

pub record SoftwareSavedRegisters : Type 0 where
  pub r4 : ℕ
  pub r5 : ℕ
  pub r6 : ℕ
  pub r7 : ℕ
  pub r8 : ℕ
  pub r9 : ℕ
  pub r10 : ℕ
  pub r11 : ℕ
  pub exc_return : ℕ

-- Thread mode on PSP, with the FPU's registers on the stack or without.
abbrev pub new : Bool → SoftwareSavedRegisters
new fpu_regs_saved = record {
  r4 = 0;
  r5 = 0;
  r6 = 0;
  r7 = 0;
  r8 = 0;
  r9 = 0;
  r10 = 0;
  r11 = 0;
  exc_return = if fpu_regs_saved then 0xFFFFFFED else 0xFFFFFFFD;
}

-- The layout of `repr(C)`, in words.
abbrev pub hardware_words : HardwareSavedRegisters → List ℕ
hardware_words h = h.r0 ∷ h.r1 ∷ h.r2 ∷ h.r3 ∷ h.r12 ∷ h.lr ∷ h.pc ∷ h.xpsr ∷ []

abbrev pub software_words : SoftwareSavedRegisters → List ℕ
software_words s = s.r4 ∷ s.r5 ∷ s.r6 ∷ s.r7 ∷ s.r8 ∷ s.r9 ∷ s.r10 ∷ s.r11 ∷ s.exc_return ∷ []

unfoldable pub push_to_stack : Memory → ℕ → List ℕ → ℕ × Memory
push_to_stack = push_aligned 8

-- `align(8)` makes the second object one word larger than its fields; `padding` is what that word
-- happens to hold.
unfoldable pub init_stack : ℕ → Memory → ℕ → ℕ → List ℕ → ℕ × Memory
unfolding push_to_stack
init_stack padding m sp pc arg =
    let (closure, m) = push_to_stack m sp arg in
    let (sp, m) = push_to_stack m closure (object (hardware_words (from_pc_and_r0 pc closure))) in
    push_to_stack m sp (object (software_words (new Bool.false) ++ padding ∷ []))

-- What the kernel calls of this crate.
unfoldable pub arch : ℕ → Arch
arch padding = record {
  init_stack = init_stack padding;
  setup = λ clock_freq tick_freq. elim (setup clock_freq tick_freq) [
    | ok systick ↦ ok tt
    | err e ↦ err e
    | panic ↦ panic
  ];
}
