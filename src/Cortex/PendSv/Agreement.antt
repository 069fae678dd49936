-- ===== src/Cortex/PendSv/Agreement.antt =====
-- The switch of thumbv6m, which can neither store nor load its high registers directly, and that
-- of thumbv7m do the same.
use taskette.Base.{ℕ, ◌+◌, ◌-◌, ◌^◌, ◌≤◌, ◌<◌, ◌≡◌, refl, ap, sym, ◌∙◌, List, ◌∷◌, ◌++◌, arith}
use taskette.Memory.{Memory, store_words, load_words}
use taskette.Machine.{Registers, values, assign, wrap_add, wrap_sub}
use taskette.Cortex.PendSv.{
  Cpu, Instr, run, execute, pend_sv, bl_select_task, call, sp, v7m_save, v7m_restore, v6m_save,
  v6m_restore,
}
use taskette.Cortex.PendSv.Contexts.{after, run-append, Switches}
use taskette.Cortex.PendSv.Variants.{
  context, v7m_save-frame, v6m_save-frame, v7m-Switches, v6m-Switches,
}

module _ (select_task : ℕ → Memory → ℕ × Memory) (scratch : Registers) where
  -- What the second part does, with the frame at the address in R0.
  abbrev Reads : List Instr → Cpu → Type 0
  Reads restore c =
      (context select_task scratch (after select_task scratch restore c)
        ≡ load_words 9 c.memory (c.reg 0))
      × ((after select_task scratch restore c).psp ≡ c.reg 0 + 40)

  v7m_restore-Reads : (c : Cpu) → c.reg 0 + 40 < 2 ^ 32 → Reads v7m_restore c
  unfolding run execute v7m_restore values assign load_words
  v7m_restore-Reads c small = (refl, grind arith)

  v6m_restore-Reads : (c : Cpu) → c.reg 0 + 40 < 2 ^ 32 → Reads v6m_restore c
  unfolding run execute v6m_restore values assign load_words
  v6m_restore-Reads c small = (
    ap (λ (x : ℕ). load_words 4 c.memory x ++ load_words 5 c.memory (wrap_add (c.reg 0) 16))
          {x = wrap_sub (wrap_add (wrap_add (c.reg 0) 16) 20) 36} {y = c.reg 0} (grind arith)
        ∙ ap (λ (x : ℕ). load_words 4 c.memory (c.reg 0) ++ load_words 5 c.memory x)
            {x = wrap_add (c.reg 0) 16} {y = c.reg 0 + 4 + 4 + 4 + 4} (grind arith),
    grind arith,
  )

  module _ (c : Cpu) (fits : 40 ≤ c.psp) (small : c.psp < 2 ^ 32) where
    abbrev pub answer : ℕ × Memory
    answer =
        select_task (c.psp - 40) (store_words c.memory (c.psp - 40) (context select_task scratch c))

    -- The kernel's answer, and the frame that it points to, decide what a handler does.
    abbrev Follows : Cpu → Type 0
    Follows k =
        (context select_task scratch k ≡ load_words 9 answer.1 answer.0)
        × (k.psp ≡ answer.0 + 40)
        × (k.memory ≡ answer.1)
        × (k.reg sp ≡ c.reg sp)

    pend_sv-Follows :
        (save_part restore_part : List Instr)
        → Switches select_task scratch save_part restore_part
            (λ _. 40)
            (context select_task scratch)
        → (after select_task scratch save_part c).memory
          ≡ store_words c.memory (c.psp - 40) (context select_task scratch c)
        → ((k : Cpu) → k.reg 0 + 40 < 2 ^ 32 → Reads restore_part k)
        → answer.0 + 40 < 2 ^ 32
        → Follows (after select_task scratch (pend_sv save_part restore_part) c)
    unfolding pend_sv run execute
    pend_sv-Follows save_part restore_part v frame reads room =
        let saved : Cpu = after select_task scratch save_part c in
        let called : Cpu = call select_task scratch saved in
        let parts : after select_task scratch (pend_sv save_part restore_part) c
            ≡ after select_task scratch restore_part called =
          run-append select_task scratch save_part (bl_select_task ∷ restore_part) c in
        let answered : select_task (saved.reg 0) saved.memory ≡ answer =
          ap (λ (p : ℕ). select_task p saved.memory) (v.pointer c fits small)
          ∙ ap (select_task (c.psp - 40)) frame in
        let next : called.reg 0 ≡ answer.0 = ap (λ (r : ℕ × Memory). r.0) answered in
        let kept : called.memory ≡ answer.1 = ap (λ (r : ℕ × Memory). r.1) answered in
        let (registers, stack) = reads called (omega (arith, next, room)) in
        (
          ap (context select_task scratch) parts
              ∙ registers
              ∙ ap (load_words 9 called.memory) next
              ∙ ap (λ (k : Memory). load_words 9 k answer.0) kept,
          ap (λ (k : Cpu). k.psp) parts ∙ stack ∙ omega (arith, next),
          ap (λ (k : Cpu). k.memory) parts ∙ v.reads_only called ∙ kept,
          ap (λ (k : Cpu). k.reg sp) parts ∙ (v.on_main_stack called).1 ∙ (v.on_main_stack c).0,
        )

    -- With room for a frame of 40 bytes on the stack, and where `select_task` answers with a frame
    -- that ends within the address space: run from the same state, the two handlers end with the
    -- same registers R4 to R11 and LR, the same process and main stack pointers and the same memory.
    pub v6m-eq-v7m :
        answer.0 + 40 < 2 ^ 32
        → (context select_task scratch (after select_task scratch (pend_sv v6m_save v6m_restore) c)
            ≡ context select_task scratch
                (after select_task scratch (pend_sv v7m_save v7m_restore) c))
          × ((after select_task scratch (pend_sv v6m_save v6m_restore) c).psp
              ≡ (after select_task scratch (pend_sv v7m_save v7m_restore) c).psp)
          × ((after select_task scratch (pend_sv v6m_save v6m_restore) c).memory
              ≡ (after select_task scratch (pend_sv v7m_save v7m_restore) c).memory)
          × ((after select_task scratch (pend_sv v6m_save v6m_restore) c).reg sp
              ≡ (after select_task scratch (pend_sv v7m_save v7m_restore) c).reg sp)
    v6m-eq-v7m room =
        let (registers, stack, memory, main) =
          pend_sv-Follows v6m_save v6m_restore (v6m-Switches select_task scratch)
            (v6m_save-frame select_task scratch c fits small) v6m_restore-Reads room in
        let (registers', stack', memory', main') =
          pend_sv-Follows v7m_save v7m_restore (v7m-Switches select_task scratch)
            (v7m_save-frame select_task scratch c fits small) v7m_restore-Reads room in
        (registers ∙ sym registers', stack ∙ sym stack', memory ∙ sym memory', main ∙ sym main')
