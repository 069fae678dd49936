-- ===== src/Cortex/Stack/Starting.antt =====
-- A new task starts at its entry point, with a pointer to its closure.
use taskette.Base.{
  ℕ, ◌+◌, ◌-◌, ◌%◌, ◌^◌, ◌≤◌, ◌<◌, ◌≡◌, refl, ap, ◌∙◌, inl, inr, false, List, [], ◌∷◌, ◌++◌, arith,
  length,
}
use taskette.Memory.{Memory, store_bytes, load_words, store_words}
use taskette.Memory.Words.{SameOutside, store_words-SameOutside}
use taskette.Machine.{padded}
use taskette.Machine.Frames.{
  push_aligned-small, push_aligned-words, load_bytes, load_bytes-agree, load_bytes-store_bytes,
  frame-reads, object, store_bytes-SameOutside, padded_8, store_words-append,
}
use taskette.Cortex.Stack.{
  push_to_stack, init_stack, from_pc_and_r0, new, hardware_words, software_words,
}

abbrev pub closure_at : ℕ → List ℕ → ℕ
closure_at sp arg = sp - padded 8 (length arg)

module _ (padding : ℕ) (m : Memory) (sp pc : ℕ) (arg : List ℕ) where
  abbrev with_closure : Memory
  with_closure = store_bytes m (closure_at sp arg) arg

  abbrev with_hardware : Memory
  with_hardware =
      store_words with_closure (closure_at sp arg - 32)
        (hardware_words (from_pc_and_r0 pc (closure_at sp arg)))

  abbrev with_software : Memory
  with_software =
      store_words with_hardware (closure_at sp arg - 72)
        (software_words (new false) ++ padding ∷ [])

  init_stack-layout :
      padded 8 (length arg) + 72 ≤ sp
      → sp < 2 ^ 32
      → init_stack padding m sp pc arg ≡ (closure_at sp arg - 72, with_software)
  unfolding init_stack push_to_stack object padded
  init_stack-layout room small =
      let closure : ℕ = closure_at sp arg in
      let hardware : List ℕ = hardware_words (from_pc_and_r0 pc closure) in
      let software : List ℕ = software_words (new false) ++ padding ∷ [] in
      ap
        (λ (r : ℕ × Memory).
          let (c, m) = r in
          let (q, m) = push_to_stack m c (object (hardware_words (from_pc_and_r0 pc c))) in
          push_to_stack m q (object software))
        (push_aligned-small 8 m sp arg (omega arith) small)
      ∙ ap (λ (r : ℕ × Memory). push_to_stack (r.1) (r.0) (object software))
          (push_aligned-words 8 with_closure closure hardware 32 (ground arith) (omega arith)
            (omega arith))
      ∙ push_aligned-words 8 with_hardware (closure - 32) software 40 (ground arith) (omega arith)
          (omega arith)
      ∙ ap (λ (q : ℕ). (q, store_words with_hardware q software)) {x = closure - 32 - 40}
          {y = closure - 72} (omega arith)

  -- A stack that is aligned at 8 bytes and has room for the closure and 72 bytes more, and an entry
  -- point of 32 bits: below the closure lies the frame from which the hardware starts the entry
  -- point with a pointer to the closure in R0, and below that the frame from which `PendSV` takes
  -- R4 to R11 and EXC_RETURN; the closure is there in full, both addresses are aligned at 8 bytes,
  -- and nothing outside the stack's top is written.
  pub init_stack-starts :
      padded 8 (length arg) + 72 ≤ sp
      → sp < 2 ^ 32
      → sp % 8 ≡ 0
      → pc < 2 ^ 32
      → (p : ℕ) × (m' : Memory) × (init_stack padding m sp pc arg ≡ (p, m'))
        × (p ≡ closure_at sp arg - 72)
        × (p % 8 ≡ 0)
        × (closure_at sp arg % 8 ≡ 0)
        × SameOutside p (padded 8 (length arg) + 72) m m'
        × (load_words 9 m' p ≡ software_words (new false))
        × (load_words 8 m' (p + 40) ≡ hardware_words (from_pc_and_r0 pc (closure_at sp arg)))
        × (load_bytes (length arg) m' (closure_at sp arg) ≡ arg)
  init_stack-starts room small aligned word =
      let closure : ℕ = closure_at sp arg in
      let (covers, tight, whole) = padded_8 (length arg) in
      let software : List ℕ = software_words (new false) in
      let hardware : List ℕ = hardware_words (from_pc_and_r0 pc closure) in
      let high : SameOutside (closure - 72) 40 with_hardware with_software =
        store_words-SameOutside with_hardware (closure - 72) (software ++ padding ∷ []) in
      let middle : SameOutside (closure - 32) 32 with_closure with_hardware =
        store_words-SameOutside with_closure (closure - 32) hardware in
      let low : SameOutside closure (length arg) m with_closure =
        store_bytes-SameOutside m closure arg in
      let registers : with_software
          ≡ store_words (store_words with_hardware (closure - 72) software) (closure - 72 + 36)
              (padding ∷ []) =
        store_words-append with_hardware (closure - 72) software (padding ∷ []) in
      (
        closure - 72,
        with_software,
        init_stack-layout room small,
        refl,
        omega arith,
        omega arith,
        (λ b outside.
            high b (omega (arith, outside))
            ∙ middle b (omega (arith, outside))
            ∙ low b (omega (arith, outside))),
        frame-reads with_hardware with_software (closure - 72) software
            (
              omega arith,
              (
                omega arith,
                (
                  omega arith,
                  (
                    omega arith,
                    (omega arith, (omega arith, (omega arith, (omega arith, (omega arith, tt))))),
                  ),
                ),
              ),
            )
            (λ b from to.
              ap (λ (k : Memory). k b) registers
              ∙ store_words-SameOutside (store_words with_hardware (closure - 72) software)
                  (closure - 72 + 36) (padding ∷ []) b (inl (omega arith))),
        ap (load_words 8 with_software) {x = closure - 72 + 40} {y = closure - 32} (omega arith)
            ∙ frame-reads with_closure with_software (closure - 32) hardware
                (
                  omega arith,
                  (
                    omega arith,
                    (
                      omega arith,
                      (omega arith, (omega arith, (omega arith, (omega arith, (omega arith, tt))))),
                    ),
                  ),
                )
                (λ b from to. high b (inr (omega arith))),
        load_bytes-agree (length arg) with_closure with_software closure
              (λ b from to. high b (inr (omega arith)) ∙ middle b (inr (omega arith)))
            ∙ load_bytes-store_bytes m closure arg,
      )
