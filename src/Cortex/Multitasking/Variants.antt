-- ===== src/Cortex/Multitasking/Variants.antt =====
-- The three variants of `PendSV` as handlers, and the frame that a new task starts from.
use taskette.Base.{ℕ, ◌+◌, ◌^◌, ◌<◌, ◌≡◌, refl, ap, subst, ◌∙◌, List, arith, false}
use taskette.Memory.{Memory, load_words}
use taskette.Machine.{Registers, values, assign}
use taskette.Machine.Frames.{load_words-agree}
use taskette.Cortex.PendSv.{
  Cpu, run, execute, saved_registers, v7m_save, v7m_restore, v6m_save, v6m_restore, fpu_save,
  fpu_restore,
}
use taskette.Cortex.PendSv.Variants.{v7m-Switches, v6m-Switches}
use taskette.Cortex.PendSv.Fpu.{frame_size, fpu-Switches}
use taskette.Cortex.PendSv.Fpu
use taskette.Cortex.Stack.{software_words, new}
use taskette.Contexts.{Context}
use taskette.Cortex.Multitasking.{Handler, Holds}

-- The registers that the switches without an FPU save.
abbrev pub core_context : Cpu → List ℕ
core_context c = values c.reg saved_registers

module _ (scratch : Registers) where
  pub v7m-Handler : Handler scratch v7m_save v7m_restore (λ _. 40) core_context
  unfolding run execute v7m_save
  v7m-Handler = record {
    switches = λ select. v7m-Switches select scratch;
    same_frame = λ select select' c. refl;
  }

  pub v6m-Handler : Handler scratch v6m_save v6m_restore (λ _. 40) core_context
  unfolding run execute v6m_save
  v6m-Handler = record {
    switches = λ select. v6m-Switches select scratch;
    same_frame = λ select select' c. refl;
  }

  pub fpu-Handler : Handler scratch fpu_save fpu_restore frame_size Fpu.context
  unfolding run execute fpu_save
  fpu-Handler = record {
    switches = λ select. fpu-Switches select scratch;
    same_frame = λ select select' c. refl;
  }

  -- The context that a new task starts with: all registers 0, and a return to thread mode.
  abbrev pub first_context : ℕ → Context
  first_context p = record { registers = software_words (new false); psp = p + 40; size = 40 }

  -- A frame holds the words in it.
  pub v7m-Holds_words :
      (m : Memory) (p : ℕ)
      → p + 40 < 2 ^ 32
      → Holds v7m-Handler m p (record { registers = load_words 9 m p; psp = p + 40; size = 40 })
  unfolding Holds run execute v7m_restore values assign load_words
  v7m-Holds_words m p small select c inside start = (
    ap (load_words 9 c.memory) start
        ∙ load_words-agree 9 m c.memory p (λ b from to. inside b from (omega arith)),
    grind arith,
  )

  pub v7m-Holds_first :
      (m : Memory) (p : ℕ)
      → p + 40 < 2 ^ 32
      → load_words 9 m p ≡ software_words (new false)
      → Holds v7m-Handler m p (first_context p)
  v7m-Holds_first m p small words =
      subst
        (λ (ws : List ℕ).
          Holds v7m-Handler m p (record { registers = ws; psp = p + 40; size = 40 }))
        words (v7m-Holds_words m p small)
