-- ===== src/Machine/Frames.antt =====
-- Frames in memory: they are read back as they were written, and writes elsewhere leave them.
use taskette.Base.{
  ℕ, zero, suc, ◌+◌, ◌-◌, ◌*◌, ◌%◌, ◌^◌, ◌≤◌, ◌<◌, ◌≡◌, refl, ap, ◌∙◌, List, [], ◌∷◌, ◌++◌, length,
  arith,
}
use taskette.Memory.{
  Memory, bytes, store_byte, store_bytes, store_u32, load_u32, store_words, load_words,
}
use taskette.Memory.Words.{SameOutside, AllWords, load_words-store_words}
use taskette.Machine.{Registers, wrap_add, wrap_sub, values, padded, push_aligned}

-- The bytes `[a, a + n)` are the same in both memories.
abbrev pub SameInside : ℕ → ℕ → Memory → Memory → Type 0
SameInside a n m m' = (b : ℕ) → a ≤ b → b < a + n → m' b ≡ m b

pub wrap_sub-small : (a b : ℕ) → b ≤ a → a < 2 ^ 32 → wrap_sub a b ≡ a - b
wrap_sub-small a b h k = grind arith

pub wrap_add-small : (a b : ℕ) → a + b < 2 ^ 32 → wrap_add a b ≡ a + b
wrap_add-small a b h = grind arith

pub load_u32-agree : (m m' : Memory) (a : ℕ) → SameInside a 4 m m' → load_u32 m' a ≡ load_u32 m a
unfolding load_u32
load_u32-agree m m' a same = ground (arith, same a, same (a + 1), same (a + 2), same (a + 3))

pub load_words-agree :
    (n : ℕ) (m m' : Memory) (a : ℕ)
    → SameInside a (4 * n) m m'
    → load_words n m' a ≡ load_words n m a
unfolding load_words
load_words-agree zero m m' a same = refl
load_words-agree (suc n) m m' a same =
    let first = load_u32-agree m m' a (λ b low high. same b low (omega arith)) in
    let rest = load_words-agree n m m' (a + 4) (λ b low high. same b (omega arith) (omega arith)) in
    rw (first, rest)

pub store_words-append :
    (m : Memory) (a : ℕ) (vs ws : List ℕ)
    → store_words m a (vs ++ ws) ≡ store_words (store_words m a vs) (a + 4 * length vs) ws
unfolding store_words
store_words-append m a [] ws = ap (λ (b : ℕ). store_words m b ws) {x = a} {y = a + 0} (omega arith)
store_words-append m a (v ∷ vs) ws =
    store_words-append (store_u32 m a v) (a + 4) vs ws
    ∙ ap (λ (b : ℕ). store_words (store_words (store_u32 m a v) (a + 4) vs) b ws)
        {x = a + 4 + 4 * length vs} {y = a + 4 * suc (length vs)} (omega arith)

-- A frame that nothing has written to is read back.
pub frame-reads :
    (m m' : Memory) (a : ℕ) (vs : List ℕ)
    → AllWords vs
    → SameInside a (4 * length vs) (store_words m a vs) m'
    → load_words (length vs) m' a ≡ vs
frame-reads m m' a vs h same =
    load_words-agree (length vs) (store_words m a vs) m' a same ∙ load_words-store_words m a vs h

-- The bytes of an object that is made of words.
unfoldable pub object : List ℕ → List ℕ
object [] = []
object (v ∷ vs) = bytes v ++ object vs

pub store_bytes-object :
    (m : Memory) (a : ℕ) (vs : List ℕ) → store_bytes m a (object vs) ≡ store_words m a vs
unfolding object store_words store_u32
store_bytes-object m a [] = refl
store_bytes-object m a (v ∷ vs) =
    ap (λ (b : ℕ). store_bytes (store_bytes m a (bytes v)) b (object vs)) {x = a + 1 + 1 + 1 + 1}
      {y = a + 4} (omega arith)
    ∙ store_bytes-object (store_bytes m a (bytes v)) (a + 4) vs

pub length-object : (vs : List ℕ) → length (object vs) ≡ 4 * length vs
unfolding object
length-object [] = refl
length-object (v ∷ vs) = ground (arith, length-object vs)

pub store_bytes-SameOutside :
    (m : Memory) (a : ℕ) (vs : List ℕ) → SameOutside a (length vs) m (store_bytes m a vs)
store_bytes-SameOutside m a [] b h = refl
store_bytes-SameOutside m a (v ∷ vs) b h =
    ground (arith, store_bytes-SameOutside (store_byte m a v) (a + 1) vs b)

-- The bytes from `a` up.
unfoldable pub load_bytes : ℕ → Memory → ℕ → List ℕ
load_bytes zero m a = []
load_bytes (suc n) m a = m a ∷ load_bytes n m (a + 1)

pub load_bytes-agree :
    (n : ℕ) (m m' : Memory) (a : ℕ) → SameInside a n m m' → load_bytes n m' a ≡ load_bytes n m a
unfolding load_bytes
load_bytes-agree zero m m' a same = refl
load_bytes-agree (suc n) m m' a same =
    let rest = load_bytes-agree n m m' (a + 1) (λ b low high. same b (omega arith) (omega arith)) in
    ground (arith, same a, rest)

pub load_bytes-store_bytes :
    (m : Memory) (a : ℕ) (vs : List ℕ) → load_bytes (length vs) (store_bytes m a vs) a ≡ vs
unfolding load_bytes
load_bytes-store_bytes m a [] = refl
load_bytes-store_bytes m a (v ∷ vs) = ground (
  arith,
  store_bytes-SameOutside (store_byte m a v) (a + 1) vs a,
  load_bytes-store_bytes (store_byte m a v) (a + 1) vs,
)

pub values-AllWords :
    (reg : Registers) → ((r : ℕ) → reg r < 2 ^ 32) → (rs : List ℕ) → AllWords (values reg rs)
unfolding values
values-AllWords reg h [] = tt
values-AllWords reg h (r ∷ rs) = (h r, values-AllWords reg h rs)

pub length-values : (reg : Registers) (rs : List ℕ) → length (values reg rs) ≡ length rs
unfolding values
length-values reg [] = refl
length-values reg (r ∷ rs) = ground (arith, length-values reg rs)

pub padded_8 : (n : ℕ) → (n ≤ padded 8 n) × (padded 8 n < n + 8) × (padded 8 n % 8 ≡ 0)
unfolding padded
padded_8 n = (ground arith, ground arith, ground arith)

pub padded_16 : (n : ℕ) → (n ≤ padded 16 n) × (padded 16 n < n + 16) × (padded 16 n % 16 ≡ 0)
unfolding padded
padded_16 n = (ground arith, ground arith, ground arith)

pub push_aligned-small :
    (align : ℕ) (m : Memory) (sp : ℕ) (obj : List ℕ)
    → padded align (length obj) ≤ sp
    → sp < 2 ^ 32
    → push_aligned align m sp obj
      ≡ (sp - padded align (length obj), store_bytes m (sp - padded align (length obj)) obj)
unfolding push_aligned
push_aligned-small align m sp obj room small =
    ap (λ (p : ℕ). (p, store_bytes m p obj))
      (wrap_sub-small sp (padded align (length obj)) room small)

-- An object that is made of words and fills the alignment.
pub push_aligned-words :
    (align : ℕ) (m : Memory) (sp : ℕ) (vs : List ℕ) (n : ℕ)
    → padded align (length (object vs)) ≡ n
    → n ≤ sp
    → sp < 2 ^ 32
    → push_aligned align m sp (object vs) ≡ (sp - n, store_words m (sp - n) vs)
push_aligned-words align m sp vs n size room small =
    push_aligned-small align m sp (object vs) (omega (arith, size)) small
    ∙ ap (λ (k : ℕ). (sp - k, store_bytes m (sp - k) (object vs))) size
    ∙ ap (λ (m' : Memory). (sp - n, m')) (store_bytes-object m (sp - n) vs)
