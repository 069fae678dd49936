-- ===== src/Cortex/PendSv/Fpu.antt =====
-- The variant of `PendSV` for chips with an FPU: bit 4 of EXC_RETURN in LR tells whether the task
-- has used it, and S16 to S31 are saved if so.
use Prim.Native.Nat.{bit_and}
use taskette.Base.{
  ℕ, zero, suc, ◌-◌, ◌^◌, ◌≤◌, ◌<◌, ◌≡◌, refl, ap, ◌∙◌, inr, Bool, true, false, List, [], ◌∷◌, ◌++◌,
  arith, ◌==◌, if◌then◌else◌, update,
}
use taskette.Memory.{Memory, store_words, load_words}
use taskette.Memory.Words.{SameOutside, store_words-SameOutside}
use taskette.Machine.{Registers, values, assign, wrap_add, wrap_sub}
use taskette.Machine.Frames.{SameInside, frame-reads, values-AllWords}
use taskette.Cortex.PendSv.{
  Cpu, vstmdbeq, sub, add, stmdb, ldmia, vldmiaeq, msr_psp, bx, run, execute, sp, lr,
  saved_registers, saved_fp_registers, fpu_save, fpu_restore,
}
use taskette.Cortex.PendSv.Contexts.{after, Switches}

-- FType is 0: the frame has the FP registers.
abbrev pub fp_frame : Cpu → Bool
fp_frame c = bit_and (c.reg lr) 16 == 0

abbrev pub frame_size : Cpu → ℕ
frame_size c = if fp_frame c then 104 else 40

abbrev fp_context : Bool → Cpu → List ℕ
fp_context used c = if used then values c.fp saved_fp_registers else []

abbrev pub context : Cpu → List ℕ
context c = values c.reg saved_registers ++ fp_context (fp_frame c) c

at : ℕ → List ℕ → ℕ
at n [] = 0
at zero (v ∷ vs) = v
at (suc n) (v ∷ vs) = at n vs

module _ (select_task : ℕ → Memory → ℕ × Memory) (scratch : Registers) where
  -- The handler from the test on, with what the test finds.
  abbrev save_from : Bool → Cpu → Cpu
  save_from used c =
      after select_task scratch
        (vstmdbeq 0 saved_fp_registers ∷ sub 0 4 ∷ stmdb 0 saved_registers ∷ [])
        (record c { reg = update c.reg 0 c.psp; zero_flag = used })

  save_parts : (c : Cpu) → after select_task scratch fpu_save c ≡ save_from (fp_frame c) c
  unfolding run execute fpu_save
  save_parts c = refl

  abbrev frame : Bool → Cpu → Memory
  frame used c =
      if used
      then store_words (store_words c.memory (c.psp - 64) (values c.fp saved_fp_registers))
          (c.psp - 104) (values c.reg saved_registers)
      else store_words c.memory (c.psp - 40) (values c.reg saved_registers)

  abbrev size_of : Bool → ℕ
  size_of used = if used then 104 else 40

  saved_pointer :
      (used : Bool) (c : Cpu)
      → size_of used ≤ c.psp
      → c.psp < 2 ^ 32
      → (save_from used c).reg 0 ≡ c.psp - size_of used
  unfolding run execute values
  saved_pointer true c fits small = grind arith
  saved_pointer false c fits small = grind arith

  saved_frame :
      (used : Bool) (c : Cpu)
      → size_of used ≤ c.psp
      → c.psp < 2 ^ 32
      → (save_from used c).memory ≡ frame used c
  unfolding run execute values
  saved_frame true c fits small =
      ap
        (λ (a : ℕ).
          store_words (store_words c.memory a (values c.fp saved_fp_registers))
            (wrap_sub (wrap_sub a 4) 36) (values c.reg saved_registers))
        {x = wrap_sub c.psp 64} {y = c.psp - 64} (grind arith)
      ∙ ap
          (λ (a : ℕ).
            store_words (store_words c.memory (c.psp - 64) (values c.fp saved_fp_registers)) a
              (values c.reg saved_registers))
          {x = wrap_sub (wrap_sub (c.psp - 64) 4) 36} {y = c.psp - 104} (grind arith)
  saved_frame false c fits small =
      ap (λ (a : ℕ). store_words c.memory a (values c.reg saved_registers))
        {x = wrap_sub (wrap_sub c.psp 4) 36} {y = c.psp - 40} (grind arith)

  frame-SameOutside :
      (used : Bool) (c : Cpu)
      → size_of used ≤ c.psp
      → SameOutside (c.psp - size_of used) (size_of used) c.memory (frame used c)
  unfolding values
  frame-SameOutside true c fits b outside =
      store_words-SameOutside (store_words c.memory (c.psp - 64) (values c.fp saved_fp_registers))
        (c.psp - 104) (values c.reg saved_registers) b (omega (arith, outside))
      ∙ store_words-SameOutside c.memory (c.psp - 64) (values c.fp saved_fp_registers) b
          (omega (arith, outside))
  frame-SameOutside false c fits b outside =
      store_words-SameOutside c.memory (c.psp - 40) (values c.reg saved_registers) b
        (omega (arith, outside))

  -- The same for the part after the call.
  abbrev loaded : Cpu → Cpu
  loaded c = after select_task scratch (ldmia 0 saved_registers ∷ add 0 4 ∷ []) c

  abbrev restore_from : Bool → Cpu → Cpu
  restore_from used c =
      after select_task scratch (vldmiaeq 0 saved_fp_registers ∷ msr_psp 0 ∷ bx lr ∷ [])
        (record (loaded c) { zero_flag = used })

  restore_parts :
      (c : Cpu) → after select_task scratch fpu_restore c ≡ restore_from (fp_frame (loaded c)) c
  unfolding run execute fpu_restore
  restore_parts c = refl

  module _ (old c : Cpu) (word : (r : ℕ) → old.reg r < 2 ^ 32)
      (fp_word : (r : ℕ) → old.fp r < 2 ^ 32) (small : old.psp < 2 ^ 32) where
    read_registers :
        (used : Bool)
        → size_of used ≤ old.psp
        → SameInside (old.psp - size_of used) (size_of used) (frame used old) c.memory
        → load_words 9 c.memory (old.psp - size_of used) ≡ values old.reg saved_registers
    unfolding values
    read_registers true fits same =
        frame-reads (store_words old.memory (old.psp - 64) (values old.fp saved_fp_registers))
          c.memory (old.psp - 104) (values old.reg saved_registers)
          (values-AllWords old.reg word saved_registers) (λ b low high. same b low (omega arith))
    read_registers false fits same =
        frame-reads old.memory c.memory (old.psp - 40) (values old.reg saved_registers)
          (values-AllWords old.reg word saved_registers) (λ b low high. same b low (omega arith))

    read_fp :
        104 ≤ old.psp
        → SameInside (old.psp - 104) 104 (frame true old) c.memory
        → load_words 16 c.memory (old.psp - 64) ≡ values old.fp saved_fp_registers
    unfolding values
    read_fp fits same =
        frame-reads old.memory c.memory (old.psp - 64) (values old.fp saved_fp_registers)
          (values-AllWords old.fp fp_word saved_fp_registers)
          (λ b low high.
            same b (omega arith) (omega arith)
            ∙ store_words-SameOutside
                (store_words old.memory (old.psp - 64) (values old.fp saved_fp_registers))
                (old.psp - 104) (values old.reg saved_registers) b (inr (omega arith)))

    continued :
        (used : Bool)
        → size_of used ≤ old.psp
        → SameInside (old.psp - size_of used) (size_of used) (frame used old) c.memory
        → c.reg 0 ≡ old.psp - size_of used
        → (values (restore_from used c).reg saved_registers ≡ values old.reg saved_registers)
          × (fp_context used (restore_from used c) ≡ fp_context used old)
          × ((restore_from used c).psp ≡ old.psp)
          × ((loaded c).reg lr ≡ old.reg lr)
          × ((restore_from used c).reg lr ≡ old.reg lr)
    unfolding run execute values assign load_words at
    continued true fits same start =
        let back = ap (load_words 9 c.memory) start ∙ read_registers true fits same in
        (
          back,
          ap (load_words 16 c.memory) {x = wrap_add (wrap_add (c.reg 0) 36) 4} {y = old.psp - 64}
                (grind arith)
              ∙ read_fp fits same,
          grind arith,
          ap (at 8) back,
          ap (at 8) back,
        )
    continued false fits same start =
        let back = ap (load_words 9 c.memory) start ∙ read_registers false fits same in
        (back, refl, grind arith, ap (at 8) back, ap (at 8) back)

  restored_memory : (used : Bool) (c : Cpu) → (restore_from used c).memory ≡ c.memory
  unfolding run execute
  restored_memory true c = refl
  restored_memory false c = refl

  saved_sp : (used : Bool) (c : Cpu) → (save_from used c).reg sp ≡ c.reg sp
  unfolding run execute
  saved_sp true c = refl
  saved_sp false c = refl

  restored_sp : (used : Bool) (c : Cpu) → (restore_from used c).reg sp ≡ c.reg sp
  unfolding run execute assign load_words
  restored_sp true c = refl
  restored_sp false c = refl

  -- The switch with an FPU is a context switch, with a frame of 104 bytes for a task that has used
  -- the FPU and of 40 bytes for any other.
  pub fpu-Switches : Switches select_task scratch fpu_save fpu_restore frame_size context
  fpu-Switches = record {
    pointer = λ c fits small.
        ap (λ (k : Cpu). k.reg 0) (save_parts c) ∙ saved_pointer (fp_frame c) c fits small;
    within = λ c fits small b outside.
        ap (λ (k : Cpu). k.memory b) (save_parts c)
        ∙ ap (λ (m : Memory). m b) (saved_frame (fp_frame c) c fits small)
        ∙ frame-SameOutside (fp_frame c) c fits b outside;
    reads_only =
        λ c. ap (λ (k : Cpu). k.memory) (restore_parts c) ∙ restored_memory (fp_frame (loaded c)) c;
    on_main_stack = λ c. (
      ap (λ (k : Cpu). k.reg sp) (save_parts c) ∙ saved_sp (fp_frame c) c,
      ap (λ (k : Cpu). k.reg sp) (restore_parts c) ∙ restored_sp (fp_frame (loaded c)) c,
    );
    returns = λ old c fits small word fp_word same start.
        let used : Bool = fp_frame old in
        let inside : SameInside (old.psp - size_of used) (size_of used) (frame used old) c.memory =
          λ b low high.
            same b low high
            ∙ ap (λ (k : Cpu). k.memory b) (save_parts old)
            ∙ ap (λ (m : Memory). m b) (saved_frame used old fits small) in
        let (registers, fp, stack, first_lr, last_lr) =
          continued old c word fp_word small used fits inside start in
        let parts : after select_task scratch fpu_restore c ≡ restore_from used c =
          restore_parts c ∙ ap (λ (v : ℕ). restore_from (bit_and v 16 == 0) c) first_lr in
        (
          ap context parts
              ∙ ap
                  (λ (v : ℕ).
                    values (restore_from used c).reg saved_registers
                    ++ fp_context (bit_and v 16 == 0) (restore_from used c))
                  last_lr
              ∙ ap (λ (vs : List ℕ). vs ++ fp_context used (restore_from used c)) registers
              ∙ ap (λ (vs : List ℕ). values old.reg saved_registers ++ vs) fp,
          ap (λ (k : Cpu). k.psp) parts ∙ stack,
        );
  }
