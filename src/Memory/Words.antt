-- ===== src/Memory/Words.antt =====
-- A word reads back as it was written, and a write elsewhere leaves it.
use taskette.Base.{
  ℕ, zero, suc, ◌+◌, ◌*◌, ◌^◌, ◌≤◌, ◌<◌, ◌≡◌, refl, ◌⊎◌, List, [], ◌∷◌, arith, length,
}
use taskette.Memory.{Memory, store_u32, load_u32, store_words, load_words}

-- What lies outside `[a, a + n)` is the same in both memories.
abbrev pub SameOutside : ℕ → ℕ → Memory → Memory → Type 0
SameOutside a n m m' = (b : ℕ) → (b < a) ⊎ (a + n ≤ b) → m' b ≡ m b

pub load_u32-store_u32 : (m : Memory) (a v : ℕ) → v < 2 ^ 32 → load_u32 (store_u32 m a v) a ≡ v
unfolding load_u32 store_u32
load_u32-store_u32 m a v h = ground arith

pub store_u32-SameOutside : (m : Memory) (a v : ℕ) → SameOutside a 4 m (store_u32 m a v)
unfolding store_u32
store_u32-SameOutside m a v b h = ground arith

pub load_u32-same :
    (m m' : Memory) (a n b : ℕ)
    → SameOutside a n m m'
    → (b + 4 ≤ a) ⊎ (a + n ≤ b)
    → load_u32 m' b ≡ load_u32 m b
unfolding load_u32
load_u32-same m m' a n b same apart =
    ground (arith, same b, same (b + 1), same (b + 2), same (b + 3))

pub load_words-same :
    (k : ℕ) (m m' : Memory) (a n b : ℕ)
    → SameOutside a n m m'
    → (b + 4 * k ≤ a) ⊎ (a + n ≤ b)
    → load_words k m' b ≡ load_words k m b
unfolding load_words
load_words-same zero m m' a n b same apart = refl
load_words-same (suc k) m m' a n b same apart =
    ground (arith, load_u32-same m m' a n b same, load_words-same k m m' a n (b + 4) same)

pub store_words-SameOutside :
    (m : Memory) (a : ℕ) (vs : List ℕ) → SameOutside a (4 * length vs) m (store_words m a vs)
unfolding store_words
store_words-SameOutside m a [] b h = refl
store_words-SameOutside m a (v ∷ vs) b h =
    ground
      (arith, store_words-SameOutside (store_u32 m a v) (a + 4) vs b, store_u32-SameOutside m a v b)

-- Every entry is a word of 32 bits.
abbrev pub AllWords : List ℕ → Type 0
AllWords [] = Unit {0}
AllWords (v ∷ vs) = (v < 2 ^ 32) × AllWords vs

pub load_words-store_words :
    (m : Memory) (a : ℕ) (vs : List ℕ)
    → AllWords vs
    → load_words (length vs) (store_words m a vs) a ≡ vs
unfolding load_words store_words
load_words-store_words m a [] h = refl
load_words-store_words m a (v ∷ vs) h = ground (
  arith,
  load_u32-same (store_u32 m a v) (store_words (store_u32 m a v) (a + 4) vs) (a + 4) (4 * length vs)
      a (store_words-SameOutside (store_u32 m a v) (a + 4) vs),
  load_u32-store_u32 m a v h.0,
  load_words-store_words (store_u32 m a v) (a + 4) vs h.1,
)
