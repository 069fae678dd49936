-- ===== src/Esp/Multitasking.antt =====
-- The context switch of taskette-esp-riscv/src/lib.rs together with the kernel: each task has a
-- context, and a switch changes the one that runs.
pub mod Switching
pub mod Spawning
use taskette.Base.{ℕ, ◌+◌, ◌-◌, ◌^◌, ◌≤◌, ◌<◌, ◌≡◌, refl, ap, sym, ◌∙◌, List, arith}
use taskette.Memory.{Memory, load_words, store_words}
use taskette.Machine.{Registers, values}
use taskette.Machine.Frames.{SameInside, frame-reads}
use taskette.Contexts.{Context}
use taskette.Esp.Switch.{
  Hart, sp, a0, run, execute, load_all, save_context, restore_context, swint_handler,
}
use taskette.Esp.Switch.Continuing.{
  after, context, IsWord, context-AllWords, save_context-frame, restore_context-reads,
}

abbrev pub context_of : Hart → Context
context_of c = record { registers = context c; psp = c.reg sp; size = 128 }

module _ (scratch : Registers) where
  -- The frame at `p` holds a context: whatever else the processor and the memory hold, the second
  -- part of `switch_context` restores it from there.
  unfoldable pub Holds : Memory → ℕ → Context → Type 0
  Holds m p x =
      (select_task : ℕ → Memory → ℕ × Memory) (c : Hart)
      → SameInside p x.size m c.memory
      → c.reg a0 ≡ p
      → (context (after select_task scratch restore_context c) ≡ x.registers)
        × ((after select_task scratch restore_context c).reg sp ≡ x.psp)

  pub Holds-frame :
      (m m' : Memory) (p : ℕ) (x : Context) → SameInside p x.size m m' → Holds m p x → Holds m' p x
  unfolding Holds
  Holds-frame m m' p x same holds select_task c inside start =
      holds select_task c (λ b low high. inside b low high ∙ same b low high) start

  -- What the first part has saved, the frame holds.
  pub saved-Holds :
      (select_task : ℕ → Memory → ℕ × Memory) (addr : ℕ) (c : Hart)
      → IsWord c
      → 128 ≤ c.reg sp
      → Holds
          (after select_task scratch save_context (swint_handler addr c)).memory
          (c.reg sp - 128)
          (context_of c)
  unfolding Holds values
  saved-Holds select_task addr c word fits select_task' k inside start =
      let small : c.reg sp < 2 ^ 32 = word.register sp in
      let (registers, stack) =
        restore_context-reads select_task' scratch k (omega (arith, start)) in
      (
        registers
            ∙ ap (load_words 32 k.memory) start
            ∙ frame-reads c.memory k.memory (c.reg sp - 128) (context c)
                (context-AllWords select_task scratch c word)
                (λ b low high.
                  inside b low high
                  ∙ ap (λ (m : Memory). m b)
                      (save_context-frame select_task scratch addr c fits small)),
        stack ∙ omega (arith, start),
      )

  -- The second part writes no memory.
  pub restore_context-reads_only :
      (select_task : ℕ → Memory → ℕ × Memory) (c : Hart)
      → (after select_task scratch restore_context c).memory ≡ c.memory
  unfolding restore_context run execute load_all
  restore_context-reads_only select_task c = refl
