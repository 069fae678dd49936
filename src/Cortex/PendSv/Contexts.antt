-- ===== src/Cortex/PendSv/Contexts.antt =====
-- What a context switch promises, for any variant of the handler: a task that is switched away
-- from is continued with the registers it had.
use taskette.Base.{ℕ, ◌-◌, ◌^◌, ◌≤◌, ◌<◌, ◌≡◌, refl, ap, ◌∙◌, ◌⊎◌, List, [], ◌∷◌, ◌++◌, arith}
use taskette.Memory.{Memory}
use taskette.Memory.Words.{SameOutside}
use taskette.Machine.{Registers}
use taskette.Machine.Frames.{SameInside}
use taskette.Cortex.PendSv.{Cpu, Instr, run, execute, pend_sv, bl_select_task, sp, call}

module _ (select_task : ℕ → Memory → ℕ × Memory) (scratch : Registers) where
  abbrev pub after : List Instr → Cpu → Cpu
  after is c = run select_task scratch is c

  pub run-append : (is js : List Instr) (c : Cpu) → after (is ++ js) c ≡ after js (after is c)
  unfolding run
  run-append [] js c = refl
  run-append (i ∷ is) js c = run-append is js (execute select_task scratch i c)

  -- `size` is the room that the registers in `context` take below the process stack pointer.
  pub record Switches (save restore : List Instr) (size : Cpu → ℕ) (context : Cpu → List ℕ)
      : Type 0 where
    -- The stack pointer that `select_task` is given.
    pub pointer :
        (c : Cpu) → size c ≤ c.psp → c.psp < 2 ^ 32 → (after save c).reg 0 ≡ c.psp - size c
    pub within :
        (c : Cpu)
        → size c ≤ c.psp
        → c.psp < 2 ^ 32
        → SameOutside (c.psp - size c) (size c) c.memory (after save c).memory
    pub reads_only : (c : Cpu) → (after restore c).memory ≡ c.memory
    pub on_main_stack :
        (c : Cpu) → ((after save c).reg sp ≡ c.reg sp) × ((after restore c).reg sp ≡ c.reg sp)
    pub returns :
        (old c : Cpu)
        → size old ≤ old.psp
        → old.psp < 2 ^ 32
        → ((r : ℕ) → old.reg r < 2 ^ 32)
        → ((r : ℕ) → old.fp r < 2 ^ 32)
        → SameInside (old.psp - size old) (size old) (after save old).memory c.memory
        → c.reg 0 ≡ old.psp - size old
        → (context (after restore c) ≡ context old) × ((after restore c).psp ≡ old.psp)

  module _ {save restore : List Instr} {size : Cpu → ℕ} {context : Cpu → List ℕ}
      (v : Switches save restore size context) where
    -- A task that was interrupted in `old` is continued by a later switch, which runs in the state
    -- `c` of another task, if that switch's `select_task` returns the stack pointer that the first
    -- one was given, if the stack of the other task lies elsewhere, and if nothing else has written
    -- to the frame: its registers and its stack pointer are what they were, and the main stack
    -- pointer is that of `c`.
    pub pend_sv-continues :
        (old c : Cpu)
        → size old ≤ old.psp
        → old.psp < 2 ^ 32
        → ((r : ℕ) → old.reg r < 2 ^ 32)
        → ((r : ℕ) → old.fp r < 2 ^ 32)
        → size c ≤ c.psp
        → c.psp < 2 ^ 32
        → SameInside (old.psp - size old) (size old) (after save old).memory c.memory
        → (c.psp ≤ old.psp - size old) ⊎ (old.psp ≤ c.psp - size c)
        → ((m : Memory) → (select_task (c.psp - size c) m).0 ≡ (after save old).reg 0)
        → ((q : ℕ) (m : Memory) → (select_task q m).1 ≡ m)
        → (context (after (pend_sv save restore) c) ≡ context old)
          × ((after (pend_sv save restore) c).psp ≡ old.psp)
          × ((after (pend_sv save restore) c).reg sp ≡ c.reg sp)
    unfolding pend_sv run execute
    pend_sv-continues old c fits small word fp_word fits' small' same apart picks keeps =
        let saved = after save c in
        let called = call select_task scratch saved in
        let parts : after (pend_sv save restore) c ≡ after restore called =
          run-append save (bl_select_task ∷ restore) c in
        let frame : SameInside (old.psp - size old) (size old) (after save old).memory
            called.memory =
          λ b low high.
            ap (λ (m : Memory). m b) (keeps (saved.reg 0) saved.memory)
            ∙ v.within c fits' small' b (omega (arith, apart))
            ∙ same b low high in
        let next : called.reg 0 ≡ old.psp - size old =
          ap (λ (p : ℕ). (select_task p saved.memory).0) (v.pointer c fits' small')
          ∙ picks saved.memory
          ∙ v.pointer old fits small in
        let (registers, stack) = v.returns old called fits small word fp_word frame next in
        (
          ap context parts ∙ registers,
          ap (λ (k : Cpu). k.psp) parts ∙ stack,
          ap (λ (k : Cpu). k.reg sp) parts ∙ (v.on_main_stack called).1 ∙ (v.on_main_stack c).0,
        )
