-- ===== src/Cortex/PendSv/Variants.antt =====
-- The three variants of `PendSV` are context switches.
use taskette.Base.{ℕ, ◌+◌, ◌-◌, ◌^◌, ◌≤◌, ◌<◌, ◌≡◌, refl, ap, sym, ◌∙◌, List, [], ◌∷◌, ◌++◌, arith}
use taskette.Memory.{Memory, store_words, load_words}
use taskette.Memory.Words.{store_words-SameOutside}
use taskette.Machine.{Registers, values, assign, wrap_add, wrap_sub}
use taskette.Machine.Frames.{frame-reads, store_words-append, values-AllWords}
use taskette.Cortex.PendSv.{
  Cpu, run, execute, saved_registers, v7m_save, v7m_restore, v6m_save, v6m_restore,
}
use taskette.Cortex.PendSv.Contexts.{after, Switches}

module _ (select_task : ℕ → Memory → ℕ × Memory) (scratch : Registers) where
  abbrev pub context : Cpu → List ℕ
  context c = values c.reg saved_registers

  -- The words that the switch of thumbv7m leaves, and where.
  pub v7m_save-frame :
      (c : Cpu)
      → 40 ≤ c.psp
      → c.psp < 2 ^ 32
      → (after select_task scratch v7m_save c).memory
        ≡ store_words c.memory (c.psp - 40) (context c)
  unfolding run execute v7m_save values
  v7m_save-frame c fits small =
      ap (λ (a : ℕ). store_words c.memory a (context c)) {x = wrap_sub (wrap_sub c.psp 4) 36}
        {y = c.psp - 40} (grind arith)

  -- The switch of thumbv7m is a context switch with a frame of 40 bytes: what `Switches` says.
  pub v7m-Switches : Switches select_task scratch v7m_save v7m_restore (λ _. 40) context
  unfolding run execute v7m_save v7m_restore values assign load_words
  v7m-Switches = record {
    pointer = λ c fits small. grind arith;
    within = λ c fits small b outside.
        ap (λ (m : Memory). m b) (v7m_save-frame c fits small)
        ∙ store_words-SameOutside c.memory (c.psp - 40) (context c) b (omega (arith, outside));
    reads_only = λ c. refl;
    on_main_stack = λ c. (refl, refl);
    returns = λ old c fits small word fp_word same at. (
      ap (load_words 9 c.memory) at
          ∙ frame-reads old.memory c.memory (old.psp - 40) (context old)
              (values-AllWords old.reg word saved_registers)
              (λ b low high.
                same b low (omega arith)
                ∙ ap (λ (m : Memory). m b) (v7m_save-frame old fits small)),
      grind arith,
    );
  }

  -- The switch of thumbv6m leaves the same words in the same place.
  pub v6m_save-frame :
      (c : Cpu)
      → 40 ≤ c.psp
      → c.psp < 2 ^ 32
      → (after select_task scratch v6m_save c).memory
        ≡ store_words c.memory (c.psp - 40) (context c)
  unfolding run execute v6m_save values
  v6m_save-frame c fits small =
      let low : List ℕ = values c.reg (4 ∷ 5 ∷ 6 ∷ 7 ∷ []) in
      let high : List ℕ = values c.reg (8 ∷ 9 ∷ 10 ∷ 11 ∷ 14 ∷ []) in
      let a : ℕ = wrap_sub (wrap_sub c.psp 24) 16 in
      let b : ℕ = wrap_sub (wrap_add a 36) 20 in
      let at_a : a ≡ c.psp - 40 = grind arith in
      let at_b : b ≡ c.psp - 40 + 16 = grind arith in
      ap (λ (x : ℕ). store_words (store_words c.memory x low) b high) at_a
      ∙ ap (λ (x : ℕ). store_words (store_words c.memory (c.psp - 40) low) x high) at_b
      ∙ sym (store_words-append c.memory (c.psp - 40) low high)

  -- The switch of thumbv6m is a context switch with the same frame of 40 bytes.
  pub v6m-Switches : Switches select_task scratch v6m_save v6m_restore (λ _. 40) context
  unfolding run execute v6m_save v6m_restore values assign load_words
  v6m-Switches = record {
    pointer = λ c fits small. grind arith;
    within = λ c fits small b outside.
        ap (λ (m : Memory). m b) (v6m_save-frame c fits small)
        ∙ store_words-SameOutside c.memory (c.psp - 40) (context c) b (omega (arith, outside));
    reads_only = λ c. refl;
    on_main_stack = λ c. (refl, refl);
    returns = λ old c fits small word fp_word same at. (
      ap (λ (x : ℕ). load_words 4 c.memory x ++ load_words 5 c.memory (wrap_add (c.reg 0) 16))
            {x = wrap_sub (wrap_add (wrap_add (c.reg 0) 16) 20) 36} {y = old.psp - 40} (grind arith)
          ∙ ap (λ (x : ℕ). load_words 4 c.memory (old.psp - 40) ++ load_words 5 c.memory x)
              {x = wrap_add (c.reg 0) 16} {y = old.psp - 40 + 4 + 4 + 4 + 4} (grind arith)
          ∙ frame-reads old.memory c.memory (old.psp - 40) (context old)
              (values-AllWords old.reg word saved_registers)
              (λ b low high.
                same b low (omega arith)
                ∙ ap (λ (m : Memory). m b) (v6m_save-frame old fits small)),
      grind arith,
    );
  }
