-- ===== src/Esp/Stack/Starting.antt =====
-- A new task starts at its entry point, with a pointer to its closure.
use taskette.Base.{ℕ, ◌+◌, ◌-◌, ◌%◌, ◌^◌, ◌≤◌, ◌<◌, ◌≡◌, refl, ap, ◌∙◌, inr, List, arith, length}
use taskette.Memory.{Memory, store_bytes, load_words, store_words}
use taskette.Memory.Words.{SameOutside, AllWords, store_words-SameOutside}
use taskette.Machine.{Registers, padded}
use taskette.Machine.Frames.{
  push_aligned-small, push_aligned-words, load_bytes, load_bytes-agree, load_bytes-store_bytes,
  frame-reads, object, store_bytes-SameOutside, padded_16,
}
use taskette.Esp.Switch.{Hart, sp, a0, restore_context}
use taskette.Esp.Switch.Continuing.{context, after, restore_context-reads}
use taskette.Esp.Stack.{from_pc_and_a0, words, push_to_stack, init_stack}

-- Where the closure lies.
abbrev pub closure_at : ℕ → List ℕ → ℕ
closure_at sp arg = sp - padded 16 (length arg)

module _ (m : Memory) (top pc : ℕ) (arg : List ℕ) where
  abbrev pub with_closure : Memory
  with_closure = store_bytes m (closure_at top arg) arg

  abbrev pub with_registers : Memory
  with_registers =
      store_words with_closure (closure_at top arg - 128)
        (words (from_pc_and_a0 pc (closure_at top arg)))

  pub init_stack-layout :
      padded 16 (length arg) + 128 ≤ top
      → top < 2 ^ 32
      → init_stack m top pc arg ≡ (closure_at top arg - 128, with_registers)
  unfolding init_stack push_to_stack object padded
  init_stack-layout room small =
      let closure : ℕ = closure_at top arg in
      ap
        (λ (r : ℕ × Memory).
          let (c, m) = r in push_to_stack m c (object (words (from_pc_and_a0 pc c))))
        (push_aligned-small 16 m top arg (omega arith) small)
      ∙ push_aligned-words 16 with_closure closure (words (from_pc_and_a0 pc closure)) 128
          (ground arith) (omega arith) (omega arith)

  pub first_words :
      (closure : ℕ) → closure < 2 ^ 32 → pc < 2 ^ 32 → AllWords (words (from_pc_and_a0 pc closure))
  first_words closure low word = (
    omega arith,
    (
      omega arith,
      (
        omega arith,
        (
          omega arith,
          (
            omega arith,
            (
              omega arith,
              (
                omega arith,
                (
                  omega arith,
                  (
                    omega arith,
                    (
                      omega arith,
                      (
                        omega arith,
                        (
                          omega arith,
                          (
                            omega arith,
                            (
                              omega arith,
                              (
                                omega arith,
                                (
                                  omega arith,
                                  (
                                    omega arith,
                                    (
                                      omega arith,
                                      (
                                        omega arith,
                                        (
                                          omega arith,
                                          (
                                            omega arith,
                                            (
                                              omega arith,
                                              (
                                                omega arith,
                                                (
                                                  omega arith,
                                                  (
                                                    omega arith,
                                                    (
                                                      omega arith,
                                                      (
                                                        omega arith,
                                                        (
                                                          omega arith,
                                                          (
                                                            omega arith,
                                                            (
                                                            omega arith,
                                                            (omega arith, (omega arith, tt)),
                                                            ),
                                                          ),
                                                        ),
                                                      ),
                                                    ),
                                                  ),
                                                ),
                                              ),
                                            ),
                                          ),
                                        ),
                                      ),
                                    ),
                                  ),
                                ),
                              ),
                            ),
                          ),
                        ),
                      ),
                    ),
                  ),
                ),
              ),
            ),
          ),
        ),
      ),
    ),
  )

  -- A stack that is aligned at 16 bytes and has room for the closure and 128 bytes more, and an
  -- entry point of 32 bits: from the stack pointer that `init_stack` gives, `switch_context`
  -- restores the entry point, a pointer to the closure in a0, zeros and the status of a thread, with
  -- the stack pointer just below the closure; the closure is there in full, both addresses are
  -- aligned at 16 bytes, and nothing outside the stack's top is written.
  pub init_stack-continues :
      (select_task : ℕ → Memory → ℕ × Memory) (scratch : Registers) (c : Hart)
      → padded 16 (length arg) + 128 ≤ top
      → top < 2 ^ 32
      → top % 16 ≡ 0
      → pc < 2 ^ 32
      → c.reg a0 ≡ (init_stack m top pc arg).0
      → c.memory ≡ (init_stack m top pc arg).1
      → ((init_stack m top pc arg).0 % 16 ≡ 0)
        × (closure_at top arg % 16 ≡ 0)
        × SameOutside (closure_at top arg - 128) (padded 16 (length arg) + 128) m c.memory
        × (context (after select_task scratch restore_context c)
            ≡ words (from_pc_and_a0 pc (closure_at top arg)))
        × ((after select_task scratch restore_context c).reg sp ≡ closure_at top arg)
        × (load_bytes (length arg) c.memory (closure_at top arg) ≡ arg)
  init_stack-continues select_task scratch c room small aligned word start same =
      let closure : ℕ = closure_at top arg in
      let (covers, tight, whole) = padded_16 (length arg) in
      let layout = init_stack-layout room small in
      let memory : c.memory ≡ with_registers = same ∙ ap (λ (r : ℕ × Memory). r.1) layout in
      let pointer : c.reg a0 ≡ closure - 128 = start ∙ ap (λ (r : ℕ × Memory). r.0) layout in
      let high : SameOutside (closure - 128) 128 with_closure with_registers =
        store_words-SameOutside with_closure (closure - 128) (words (from_pc_and_a0 pc closure)) in
      let low : SameOutside closure (length arg) m with_closure =
        store_bytes-SameOutside m closure arg in
      let (registers, stack) =
        restore_context-reads select_task scratch c (omega (arith, pointer)) in
      (
        omega (arith, ap (λ (r : ℕ × Memory). r.0) layout),
        omega arith,
        (λ b outside.
            ap (λ (k : Memory). k b) memory
            ∙ high b (omega (arith, outside))
            ∙ low b (omega (arith, outside))),
        registers
            ∙ ap (load_words 32 c.memory) pointer
            ∙ ap (λ (k : Memory). load_words 32 k (closure - 128)) memory
            ∙ frame-reads with_closure with_registers (closure - 128)
                (words (from_pc_and_a0 pc closure)) (first_words closure (omega arith) word)
                (λ b from to. refl),
        stack ∙ omega (arith, pointer),
        ap (λ (k : Memory). load_bytes (length arg) k closure) memory
            ∙ load_bytes-agree (length arg) with_closure with_registers closure
                (λ b from to. high b (inr (omega arith)))
            ∙ load_bytes-store_bytes m closure arg,
      )
