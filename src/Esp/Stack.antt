-- ===== src/Esp/Stack.antt =====
-- The stack that a new task starts with, taskette-esp-riscv/src/lib.rs: the closure at the top, and
-- below it the registers that `switch_context` restores.
pub mod Starting
use taskette.Base.{
  ℕ, ◌+◌, ◌-◌, ◌%◌, ◌^◌, ◌≤◌, ◌<◌, ◌≡◌, refl, ap, ◌∙◌, inr, List, [], ◌∷◌, arith, length,
}
use taskette.Memory.{Memory, store_bytes, load_words, store_words}
use taskette.Memory.Words.{SameOutside, AllWords, store_words-SameOutside}
use taskette.Machine.{Registers, padded, push_aligned}
use taskette.Machine.Frames.{
  push_aligned-small, push_aligned-words, load_bytes, load_bytes-agree, load_bytes-store_bytes,
  frame-reads, object, store_bytes-SameOutside, padded_16,
}
use taskette.Outcome.{ok}
use taskette.Scheduler.Tasks.{Arch}
use taskette.Esp.Switch.{Hart, sp, a0, restore_context}
use taskette.Esp.Switch.Continuing.{context, after, restore_context-reads}

pub record SavedRegisters : Type 0 where
  pub ra : ℕ
  pub gp : ℕ
  pub tp : ℕ
  pub t0 : ℕ
  pub t1 : ℕ
  pub t2 : ℕ
  pub s0 : ℕ
  pub s1 : ℕ
  pub a0 : ℕ
  pub a1 : ℕ
  pub a2 : ℕ
  pub a3 : ℕ
  pub a4 : ℕ
  pub a5 : ℕ
  pub a6 : ℕ
  pub a7 : ℕ
  pub s2 : ℕ
  pub s3 : ℕ
  pub s4 : ℕ
  pub s5 : ℕ
  pub s6 : ℕ
  pub s7 : ℕ
  pub s8 : ℕ
  pub s9 : ℕ
  pub s10 : ℕ
  pub s11 : ℕ
  pub t3 : ℕ
  pub t4 : ℕ
  pub t5 : ℕ
  pub t6 : ℕ
  pub pc : ℕ
  pub mstatus : ℕ

-- `(3 << 11) | (1 << 7)`: machine mode, interrupts enabled.
abbrev pub from_pc_and_a0 : ℕ → ℕ → SavedRegisters
from_pc_and_a0 pc a0 = record {
  ra = 0;
  gp = 0;
  tp = 0;
  t0 = 0;
  t1 = 0;
  t2 = 0;
  s0 = 0;
  s1 = 0;
  a0 = a0;
  a1 = 0;
  a2 = 0;
  a3 = 0;
  a4 = 0;
  a5 = 0;
  a6 = 0;
  a7 = 0;
  s2 = 0;
  s3 = 0;
  s4 = 0;
  s5 = 0;
  s6 = 0;
  s7 = 0;
  s8 = 0;
  s9 = 0;
  s10 = 0;
  s11 = 0;
  t3 = 0;
  t4 = 0;
  t5 = 0;
  t6 = 0;
  pc = pc;
  mstatus = 0x1880;
}

-- The layout of `repr(C)`, in words.
abbrev pub words : SavedRegisters → List ℕ
words r =
    r.ra ∷ r.gp ∷ r.tp ∷ r.t0 ∷ r.t1 ∷ r.t2 ∷ r.s0 ∷ r.s1 ∷ r.a0 ∷ r.a1 ∷ r.a2 ∷ r.a3 ∷ r.a4 ∷ r.a5
    ∷ r.a6 ∷ r.a7 ∷ r.s2 ∷ r.s3 ∷ r.s4 ∷ r.s5 ∷ r.s6 ∷ r.s7 ∷ r.s8 ∷ r.s9 ∷ r.s10 ∷ r.s11 ∷ r.t3
    ∷ r.t4 ∷ r.t5 ∷ r.t6 ∷ r.pc ∷ r.mstatus ∷ []

unfoldable pub push_to_stack : Memory → ℕ → List ℕ → ℕ × Memory
push_to_stack = push_aligned 16

unfoldable pub init_stack : Memory → ℕ → ℕ → List ℕ → ℕ × Memory
unfolding push_to_stack
init_stack m sp pc arg =
    let (closure, m) = push_to_stack m sp arg in
    push_to_stack m closure (object (words (from_pc_and_a0 pc closure)))

-- What the kernel calls of this crate; `setup` only stores what it is given, see `Ticks`.
abbrev pub arch : Arch
arch = record { init_stack = init_stack; setup = λ clock_freq tick_freq. ok tt }
