-- ===== src/Memory.antt =====
-- Memory as bytes, and the words of 32 bits in it, little-endian as on the supported chips.
pub mod Words
use taskette.Base.{ℕ, zero, suc, ◌+◌, ◌*◌, ◌/◌, ◌%◌, ◌^◌, List, [], ◌∷◌, ◌==◌, if◌then◌else◌}

abbrev pub Memory : Type 0
Memory = ℕ → ℕ

abbrev pub store_byte : Memory → ℕ → ℕ → Memory
store_byte m a v b = if a == b then v else m b

-- `core::ptr::copy` of an object to address `a`.
abbrev pub store_bytes : Memory → ℕ → List ℕ → Memory
store_bytes m a [] = m
store_bytes m a (v ∷ vs) = store_bytes (store_byte m a v) (a + 1) vs

-- The bytes of a word.
abbrev pub bytes : ℕ → List ℕ
bytes v = v % 256 ∷ v / 256 % 256 ∷ v / 65536 % 256 ∷ v / 16777216 % 256 ∷ []

unfoldable pub store_u32 : Memory → ℕ → ℕ → Memory
store_u32 m a v = store_bytes m a (bytes v)

unfoldable pub load_u32 : Memory → ℕ → ℕ
load_u32 m a = m a + 256 * m (a + 1) + 65536 * m (a + 2) + 16777216 * m (a + 3)

-- Words in a row, from address `a` up.
unfoldable pub store_words : Memory → ℕ → List ℕ → Memory
store_words m a [] = m
store_words m a (v ∷ vs) = store_words (store_u32 m a v) (a + 4) vs

unfoldable pub load_words : ℕ → Memory → ℕ → List ℕ
load_words zero m a = []
load_words (suc n) m a = load_u32 m a ∷ load_words n m (a + 4)
