-- ===== src/Esp/Switch/Continuing.antt =====
-- A task that `switch_context` switches away from is continued where it was, with the registers and
-- the status it had.
use taskette.Base.{
  ℕ, zero, suc, ◌+◌, ◌-◌, ◌*◌, ◌^◌, ◌≤◌, ◌<◌, ◌≡◌, refl, ap, sym, ◌∙◌, ◌⊎◌, List, [], ◌∷◌, ◌++◌,
  arith, length,
}
use taskette.Memory.{Memory, store_u32, load_u32, store_words, load_words}
use taskette.Memory.Words.{AllWords, store_words-SameOutside}
use taskette.Machine.{Registers, values, wrap_add}
use taskette.Machine.Frames.{
  SameInside, frame-reads, store_words-append, wrap_add-small, values-AllWords,
}
use taskette.Esp.Switch.{
  Hart, Instr, sp, a0, run, execute, call, call_select_task, saved_registers, store_all, load_all,
  save_context, restore_context, switch_context, swint_handler, set, t0, csrr_mscratch, sw,
  lw_mstatus_save, mv, lw_main_stack_ptr,
}

-- The words of a frame, and those that the instructions read.
abbrev pub context : Hart → List ℕ
context c = values c.reg saved_registers ++ c.mepc ∷ c.mstatus ∷ []

reads : ℕ → Memory → ℕ → ℕ → List ℕ
reads zero m p n = []
reads (suc k) m p n = load_u32 m (wrap_add p n) ∷ reads k m p (n + 4)

reads-words :
    (k : ℕ) (m : Memory) (p n : ℕ)
    → p + n + 4 * k < 2 ^ 32 + 4
    → reads k m p n ≡ load_words k m (p + n)
unfolding reads load_words
reads-words zero m p n h = refl
reads-words (suc k) m p n h = ground (
  arith,
  ap (load_u32 m) (wrap_add-small p n (omega arith)),
  reads-words k m p (n + 4) (omega arith),
  ap (load_words k m) {x = p + (n + 4)} {y = p + n + 4} (omega arith),
)

-- The registers that are saved, the interrupted position and the status are words.
pub record IsWord (c : Hart) : Type 0 where
  pub register : (r : ℕ) → c.reg r < 2 ^ 32
  pub position : c.mepc < 2 ^ 32
  pub status : c.mstatus < 2 ^ 32

words-append : (vs ws : List ℕ) → AllWords vs → AllWords ws → AllWords (vs ++ ws)
words-append [] ws h k = k
words-append (v ∷ vs) ws h k = (h.0, words-append vs ws h.1 k)

module _ (select_task : ℕ → Memory → ℕ × Memory) (scratch : Registers) where
  abbrev pub after : List Instr → Hart → Hart
  after is c = run select_task scratch is c

  pub run-append : (is js : List Instr) (c : Hart) → after (is ++ js) c ≡ after js (after is c)
  unfolding run
  run-append [] js c = refl
  run-append (i ∷ is) js c = run-append is js (execute select_task scratch i c)

  run-store_all :
      (n : ℕ) (rs : List ℕ) (c : Hart)
      → c.reg sp + n + 4 * length rs < 2 ^ 32
      → after (store_all n rs) c
        ≡ record c { memory = store_words c.memory (c.reg sp + n) (values c.reg rs) }
  unfolding run execute store_all values store_words
  run-store_all n [] c h = refl
  run-store_all n (r ∷ rs) c h =
      ap
        (λ (a : ℕ).
          after (store_all (n + 4) rs) (record c { memory = store_u32 c.memory a (c.reg r) }))
        (wrap_add-small (c.reg sp) n (omega arith))
      ∙ run-store_all (n + 4) rs (record c { memory = store_u32 c.memory (c.reg sp + n) (c.reg r) })
          (omega arith)
      ∙ ap
          (λ (a : ℕ). record c {
            memory = store_words (store_u32 c.memory (c.reg sp + n) (c.reg r)) a (values c.reg rs);
          })
          {x = c.reg sp + (n + 4)} {y = c.reg sp + n + 4} (omega arith)

  -- A frame of 128 bytes below the stack pointer is begun.
  abbrev begun : ℕ → ℕ → Hart → Hart
  begun addr q c = set sp q (swint_handler addr c)

  abbrev rest : List Instr
  rest =
      csrr_mscratch t0
      ∷ sw t0 120
      ∷ lw_mstatus_save t0
      ∷ sw t0 124
      ∷ mv a0 sp
      ∷ lw_main_stack_ptr sp
      ∷ []

  -- What `select_task` finds, with the frame at `q`.
  abbrev saved : ℕ → ℕ → Hart → Hart
  saved addr q c =
      after rest
        (record (begun addr q c) { memory = store_words c.memory q (values c.reg saved_registers) })

  save_parts :
      (addr : ℕ) (c : Hart)
      → 128 ≤ c.reg sp
      → c.reg sp < 2 ^ 32
      → after save_context (swint_handler addr c) ≡ saved addr (c.reg sp - 128) c
  unfolding swint_handler save_context run execute values
  save_parts addr c fits small =
      let p : ℕ = c.reg sp - 128 in
      let at : wrap_add (c.reg sp) 0xFFFFFF80 ≡ p = grind arith in
      ap (λ (q : ℕ). after (store_all 0 saved_registers ++ rest) (begun addr q c)) at
      ∙ run-append (store_all 0 saved_registers) rest (begun addr p c)
      ∙ ap (after rest) (run-store_all 0 saved_registers (begun addr p c) (omega arith))
      ∙ ap
          (λ (q : ℕ). after rest (record (begun addr p c) {
            memory = store_words c.memory q (values c.reg saved_registers);
          }))
          {x = p + 0} {y = p} (omega arith)

  -- The frame of a task that was interrupted in `c`.
  pub save_context-frame :
      (addr : ℕ) (c : Hart)
      → 128 ≤ c.reg sp
      → c.reg sp < 2 ^ 32
      → (after save_context (swint_handler addr c)).memory
        ≡ store_words c.memory (c.reg sp - 128) (context c)
  unfolding swint_handler run execute values store_words
  save_context-frame addr c fits small =
      let p : ℕ = c.reg sp - 128 in
      let low : Memory = store_words c.memory p (values c.reg saved_registers) in
      ap (λ (k : Hart). k.memory) (save_parts addr c fits small)
      ∙ ap (λ (x : ℕ). store_u32 (store_u32 low x c.mepc) (wrap_add p 124) c.mstatus)
          {x = wrap_add p 120} {y = p + 120} (grind arith)
      ∙ ap (λ (x : ℕ). store_u32 (store_u32 low (p + 120) c.mepc) x c.mstatus) {x = wrap_add p 124}
          {y = p + 120 + 4} (grind arith)
      ∙ sym (store_words-append c.memory p (values c.reg saved_registers) (c.mepc ∷ c.mstatus ∷ []))

  -- `select_task` gets the address of the frame, and runs on the main stack.
  pub save_context-pointers :
      (addr : ℕ) (c : Hart)
      → 128 ≤ c.reg sp
      → c.reg sp < 2 ^ 32
      → ((after save_context (swint_handler addr c)).reg a0 ≡ c.reg sp - 128)
        × ((after save_context (swint_handler addr c)).reg sp ≡ c.main_stack_ptr)
  unfolding swint_handler run execute
  save_context-pointers addr c fits small =
      let parts = save_parts addr c fits small in
      (ap (λ (k : Hart). k.reg a0) parts, ap (λ (k : Hart). k.reg sp) parts)

  -- What is restored from the frame that `a0` points to.
  pub restore_context-reads :
      (c : Hart)
      → c.reg a0 + 128 < 2 ^ 32
      → (context (after restore_context c) ≡ load_words 32 c.memory (c.reg a0))
        × ((after restore_context c).reg sp ≡ c.reg a0 + 128)
  unfolding restore_context run execute load_all values reads
  restore_context-reads c small = (
    reads-words 32 c.memory (c.reg a0) 0 (omega arith)
        ∙ ap (load_words 32 c.memory) {x = c.reg a0 + 0} {y = c.reg a0} (omega arith),
    wrap_add-small (c.reg a0) 128 small,
  )

  pub context-AllWords : (c : Hart) → IsWord c → AllWords (context c)
  unfolding values
  context-AllWords c w =
      words-append (values c.reg saved_registers) (c.mepc ∷ c.mstatus ∷ [])
        (values-AllWords c.reg w.register saved_registers) (w.position, (w.status, tt))

  -- A task that the software interrupt found in `old` is continued by a later switch, which finds
  -- the state `c` of another task, if that switch's `select_task` returns the stack pointer that
  -- the first one was given and writes no memory, if both stacks have room for a frame and the
  -- frames lie apart, and if nothing else has written to the frame of `old`: the registers, the
  -- position and the status that are restored, and the stack pointer, are those of `old`.
  pub switch_context-continues :
      (addr : ℕ) (old c : Hart)
      → IsWord old
      → 128 ≤ old.reg sp
      → 128 ≤ c.reg sp
      → c.reg sp < 2 ^ 32
      → SameInside
          (old.reg sp - 128)
          128
          (after save_context (swint_handler addr old)).memory
          c.memory
      → (c.reg sp ≤ old.reg sp - 128) ⊎ (old.reg sp ≤ c.reg sp - 128)
      → ((m : Memory)
          → (select_task (c.reg sp - 128) m).0
            ≡ (after save_context (swint_handler addr old)).reg a0)
      → ((q : ℕ) (m : Memory) → (select_task q m).1 ≡ m)
      → (context (after switch_context (swint_handler addr c)) ≡ context old)
        × ((after switch_context (swint_handler addr c)).reg sp ≡ old.reg sp)
  unfolding switch_context run execute values
  switch_context-continues addr old c word fits fits' small' same apart picks keeps =
      let small : old.reg sp < 2 ^ 32 = word.register sp in
      let saved : Hart = after save_context (swint_handler addr c) in
      let called : Hart = call select_task scratch saved in
      let parts : after switch_context (swint_handler addr c) ≡ after restore_context called =
        run-append save_context (call_select_task ∷ restore_context) (swint_handler addr c) in
      let frame : SameInside (old.reg sp - 128) 128
          (store_words old.memory (old.reg sp - 128) (context old)) called.memory =
        λ b low high.
          ap (λ (m : Memory). m b) (keeps (saved.reg a0) saved.memory)
          ∙ ap (λ (m : Memory). m b) (save_context-frame addr c fits' small')
          ∙ store_words-SameOutside c.memory (c.reg sp - 128) (context c) b (omega (arith, apart))
          ∙ same b low high
          ∙ ap (λ (m : Memory). m b) (save_context-frame addr old fits small) in
      let next : called.reg a0 ≡ old.reg sp - 128 =
        ap (λ (p : ℕ). (select_task p saved.memory).0)
          ((save_context-pointers addr c fits' small').0)
        ∙ picks saved.memory
        ∙ (save_context-pointers addr old fits small).0 in
      let (registers, stack) = restore_context-reads called (omega (arith, next)) in
      (
        ap context parts
            ∙ registers
            ∙ ap (load_words 32 called.memory) next
            ∙ frame-reads old.memory called.memory (old.reg sp - 128) (context old)
                (context-AllWords old word) frame,
        ap (λ (k : Hart). k.reg sp) parts ∙ stack ∙ omega (arith, next),
      )
