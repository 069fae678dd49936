-- ===== src/Scheduler/Canary/Detection.antt =====
-- The canary holds as long as nothing is written to it, and any change of it is found.
use taskette.Base.{
  ℕ, ◌+◌, ◌*◌, ◌≡◌, refl, ap, false, ◌↔◌, arith, inl, inr, if◌then◌else◌, Bool-cases, ◌<◌, ◌==◌,
  ◌%◌,
}
use taskette.Memory.{Memory, load_u32, load_words, store_u32, store_words}
use taskette.Memory.Words.{SameOutside, store_words-SameOutside}
use taskette.Outcome.{Features}
use taskette.Scheduler.Canary.{
  stack_canary, stack_canary_len, repeat, fill_stack_canary, check_stack_canary,
}

-- The check passes exactly when all four words are the pattern.
pub check_stack_canary_iff :
    (m : Memory) (bottom : ℕ)
    → (check_stack_canary m bottom ≡ false) ↔ (
        (load_u32 m bottom ≡ stack_canary)
        × (load_u32 m (bottom + 4) ≡ stack_canary)
        × (load_u32 m (bottom + 4 + 4) ≡ stack_canary)
        × (load_u32 m (bottom + 4 + 4 + 4) ≡ stack_canary))
unfolding check_stack_canary load_words
check_stack_canary_iff m bottom = (λ h. ground arith, λ h. ground arith)

-- The bytes of the words in which the canary is written down.
abbrev canary_byte : ℕ → ℕ
canary_byte k = if k == 0 then 0x34 else if k == 1 then 0x12 else if k == 2 then 0xCD else 0xAB

fill-byte :
    (m : Memory) (bottom k : ℕ)
    → k < 16
    → fill_stack_canary m bottom (bottom + k) ≡ canary_byte (k % 4)
unfolding fill_stack_canary store_words store_u32
fill-byte m bottom k inside = ground arith

load_u32-canary :
    (m : Memory) (a : ℕ)
    → ((b : ℕ) → m b < 256)
    → (load_u32 m a ≡ stack_canary) ↔ ((k : ℕ) → k < 4 → m (a + k) ≡ canary_byte k)
unfolding load_u32
load_u32-canary m a are_bytes = (
  λ e k small. ground (arith, are_bytes a, are_bytes (a + 1), are_bytes (a + 2), are_bytes (a + 3)),
  λ h. ground (arith, h 0, h 1, h 2, h 3),
)

-- The bytes from `bottom` up to 16 further are those of `fill_stack_canary`.
abbrev pub Intact : Memory → Memory → ℕ → Type 0
Intact m m' bottom = (k : ℕ) → k < 16 → m' (bottom + k) ≡ fill_stack_canary m bottom (bottom + k)

module _ (m m' : Memory) (bottom : ℕ) (are_bytes : (b : ℕ) → m' b < 256) where
  word_of_Intact :
      (i : ℕ) → i < 4 → Intact m m' bottom → load_u32 m' (bottom + 4 * i) ≡ stack_canary
  word_of_Intact i below intact =
      (load_u32-canary m' (bottom + 4 * i) are_bytes).1
        (λ k small. ground (arith, intact (4 * i + k), fill-byte m bottom (4 * i + k)))

  byte_of_word :
      (i a : ℕ)
      → a ≡ bottom + 4 * i
      → load_u32 m' a ≡ stack_canary
      → (k : ℕ) → k < 4
      → i < 4
      → m' (bottom + 4 * i + k) ≡ fill_stack_canary m bottom (bottom + 4 * i + k)
  byte_of_word i a at e k small below = ground (
    arith,
    at,
    ap m' {x = a + k} {y = bottom + 4 * i + k} (omega (arith, at)),
    (load_u32-canary m' a are_bytes).0 e k small,
    fill-byte m bottom (4 * i + k),
  )

  -- With `m` the memory at `fill_stack_canary` and `m'` one of bytes, whatever was written since:
  -- `check_stack_canary` passes exactly if all sixteen bytes are still what `fill_stack_canary`
  -- wrote, so that it panics for a change of any of them, and for no other write.
  pub check-fill_iff : (check_stack_canary m' bottom ≡ false) ↔ Intact m m' bottom
  check-fill_iff = (passes, fails)
    where
      passes : check_stack_canary m' bottom ≡ false → Intact m m' bottom
      passes e k inside =
          let (e₀, e₁, e₂, e₃) = (check_stack_canary_iff m' bottom).0 e in
          ground (
            arith,
            byte_of_word 0 bottom (omega arith) e₀ (k % 4),
            byte_of_word 1 (bottom + 4) (omega arith) e₁ (k % 4),
            byte_of_word 2 (bottom + 4 + 4) (omega arith) e₂ (k % 4),
            byte_of_word 3 (bottom + 4 + 4 + 4) (omega arith) e₃ (k % 4),
          )

      fails : Intact m m' bottom → check_stack_canary m' bottom ≡ false
      fails intact = (check_stack_canary_iff m' bottom).1 (
          ground (
            arith,
            word_of_Intact 0 (omega arith) intact,
            word_of_Intact 1 (omega arith) intact,
            word_of_Intact 2 (omega arith) intact,
            word_of_Intact 3 (omega arith) intact,
          ))

pub fill-SameOutside :
    (m : Memory) (bottom : ℕ) → SameOutside bottom 16 m (fill_stack_canary m bottom)
unfolding fill_stack_canary repeat
fill-SameOutside m bottom = store_words-SameOutside m bottom (repeat stack_canary_len stack_canary)

-- The memory in which `spawn` prepares a stack: with the feature `stack-canary` the canary is there.
abbrev pub filled : Features → Memory → ℕ → Memory
filled f m start = if f.stack_canary then fill_stack_canary m start else m

pub filled-SameOutside :
    (f : Features) (m : Memory) (start : ℕ) → SameOutside start 16 m (filled f m start)
filled-SameOutside f m start b outside = elim (Bool-cases f.stack_canary) [
  | inl on ↦ rw on (fill-SameOutside m start b outside)
  | inr off ↦ rw off refl
]
