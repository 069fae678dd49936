-- ===== src/Heapless.antt =====
-- The containers that the program takes from the crate `heapless`: `Deque`, `FnvIndexMap` and
-- `BinaryHeap`, each of a fixed capacity. The crate is not part of the repository, so its
-- containers are parameters, with the documented behaviour of the operations that the program
-- calls as laws. `Heapless.Lists` meets the laws by plain lists.
pub mod Lists
use Prim.Native.Nat.{compare, Ordering}
use taskette.Base.{
  ℕ, ◌+◌, ◌≤◌, ◌<◌, ◌≡◌, Bool, true, false, Option, none, some, List, [], ◌∷◌, ◌++◌, ltb, ◌==◌,
  if◌then◌else◌, bit, is_some, length, head?, tail, is_nil, keep, tally, count,
}

-- `heapless::Deque<usize, N>`. `items` lists the entries from the front to the back.
pub record DequeLib : Type 1 where
  pub Deque : ℕ → Type 0
  pub items : {n : ℕ} → Deque n → List ℕ
  pub new : {n : ℕ} → Deque n
  pub push_back : {n : ℕ} → Deque n → ℕ → Option (Deque n)
  pub pop_front : {n : ℕ} → Deque n → Option ℕ × Deque n
  pub is_empty : {n : ℕ} → Deque n → Bool
  pub retain : {n : ℕ} → (ℕ → Bool) → Deque n → Deque n
  pub length-items : {n : ℕ} (d : Deque n) → length (items d) ≤ n
  pub items-new : (n : ℕ) → items (new {n = n}) ≡ []
  -- `Err` when full, and the deque is as it was.
  pub push_back-full : {n : ℕ} (d : Deque n) (x : ℕ) → length (items d) ≡ n → push_back d x ≡ none
  pub push_back-room :
      {n : ℕ} (d : Deque n) (x : ℕ)
      → length (items d) < n
      → (e : Deque n) × (push_back d x ≡ some e) × (items e ≡ items d ++ x ∷ [])
  pub pop_front-value : {n : ℕ} (d : Deque n) → (pop_front d).0 ≡ head? (items d)
  pub items-pop_front : {n : ℕ} (d : Deque n) → items (pop_front d).1 ≡ tail (items d)
  pub is_empty_lem : {n : ℕ} (d : Deque n) → is_empty d ≡ is_nil (items d)
  pub items-retain : {n : ℕ} (p : ℕ → Bool) (d : Deque n) → items (retain p d) ≡ keep p (items d)

-- `heapless::index_map::FnvIndexMap<usize, V, N>`. `put` is a write through the reference of
-- `get_mut`; `keys` lists the keys.
pub record IndexMapLib : Type 1 where
  pub IndexMap : Type 0 → ℕ → Type 0
  pub keys : {V : Type 0} {n : ℕ} → IndexMap V n → List ℕ
  pub empty : {V : Type 0} {n : ℕ} → IndexMap V n
  pub get : {V : Type 0} {n : ℕ} → IndexMap V n → ℕ → Option V
  pub put : {V : Type 0} {n : ℕ} → IndexMap V n → ℕ → V → IndexMap V n
  pub insert : {V : Type 0} {n : ℕ} → IndexMap V n → ℕ → V → Option (IndexMap V n)
  pub remove : {V : Type 0} {n : ℕ} → IndexMap V n → ℕ → Option V × IndexMap V n
  pub length-keys : {V : Type 0} {n : ℕ} (m : IndexMap V n) → length (keys m) ≤ n
  pub count-keys :
      {V : Type 0} {n : ℕ} (m : IndexMap V n) (k : ℕ) → count k (keys m) ≡ bit (is_some (get m k))
  pub get-empty : (V : Type 0) (n k : ℕ) → get (empty {V = V} {n = n}) k ≡ none
  pub get-put :
      {V : Type 0} {n : ℕ} (m : IndexMap V n) (k j : ℕ) (v : V)
      → is_some (get m k) ≡ true
      → get (put m k v) j ≡ (if k == j then some v else get m j)
  -- A new key is refused when the map is full; a key that is there gets the new value.
  pub insert-full :
      {V : Type 0} {n : ℕ} (m : IndexMap V n) (k : ℕ) (v : V)
      → length (keys m) ≡ n
      → get m k ≡ none
      → insert m k v ≡ none
  pub insert-room :
      {V : Type 0} {n : ℕ} (m : IndexMap V n) (k : ℕ) (v : V)
      → length (keys m) < n
      → (m' : IndexMap V n) × (insert m k v ≡ some m')
        × ((j : ℕ) → get m' j ≡ (if k == j then some v else get m j))
  pub insert-present :
      {V : Type 0} {n : ℕ} (m : IndexMap V n) (k : ℕ) (v : V)
      → is_some (get m k) ≡ true
      → (m' : IndexMap V n) × (insert m k v ≡ some m')
        × ((j : ℕ) → get m' j ≡ (if k == j then some v else get m j))
  pub remove-value : {V : Type 0} {n : ℕ} (m : IndexMap V n) (k : ℕ) → (remove m k).0 ≡ get m k
  pub get-remove :
      {V : Type 0} {n : ℕ} (m : IndexMap V n) (k j : ℕ)
      → get (remove m k).1 j ≡ (if k == j then none else get m j)

-- `heapless::BinaryHeap<T, Min, N>` for the order `cmp` of `T`. `items` lists the entries in some
-- order, so that the laws speak of the number of entries that pass a test.
pub record BinaryHeapLib : Type 1 where
  pub BinaryHeap : (T : Type 0) → (T → T → Ordering) → ℕ → Type 0
  pub items : {T : Type 0} {cmp : T → T → Ordering} {n : ℕ} → BinaryHeap T cmp n → List T
  pub new : {T : Type 0} {cmp : T → T → Ordering} {n : ℕ} → BinaryHeap T cmp n
  pub push :
      {T : Type 0} {cmp : T → T → Ordering} {n : ℕ}
      → BinaryHeap T cmp n
      → T
      → Option (BinaryHeap T cmp n)
  pub peek : {T : Type 0} {cmp : T → T → Ordering} {n : ℕ} → BinaryHeap T cmp n → Option T
  pub pop : {T : Type 0} {cmp : T → T → Ordering} {n : ℕ} → BinaryHeap T cmp n → BinaryHeap T cmp n
  pub length-items :
      {T : Type 0} {cmp : T → T → Ordering} {n : ℕ} (h : BinaryHeap T cmp n) → length (items h) ≤ n
  pub items-new :
      (T : Type 0) (cmp : T → T → Ordering) (n : ℕ) → items (new {T = T} {cmp = cmp} {n = n}) ≡ []
  pub push-full :
      {T : Type 0} {cmp : T → T → Ordering} {n : ℕ} (h : BinaryHeap T cmp n) (x : T)
      → length (items h) ≡ n
      → push h x ≡ none
  pub push-room :
      {T : Type 0} {cmp : T → T → Ordering} {n : ℕ} (h : BinaryHeap T cmp n) (x : T)
      → length (items h) < n
      → (g : BinaryHeap T cmp n) × (push h x ≡ some g)
        × ((p : T → Bool) → tally p (items g) ≡ bit (p x) + tally p (items h))
  pub peek-none :
      {T : Type 0} {cmp : T → T → Ordering} {n : ℕ} (h : BinaryHeap T cmp n)
      → peek h ≡ none
      → items h ≡ []
  -- What `peek` shows is what `pop` (the source's `pop_unchecked`) takes out.
  pub pop_lem :
      {T : Type 0} {cmp : T → T → Ordering} {n : ℕ} (h : BinaryHeap T cmp n) (x : T)
      → peek h ≡ some x
      → (p : T → Bool) → tally p (items h) ≡ bit (p x) + tally p (items (pop h))
  -- It is least, where the order is the order of a key.
  pub peek-least :
      {T : Type 0} {cmp : T → T → Ordering} {n : ℕ} (h : BinaryHeap T cmp n) (x : T)
      → peek h ≡ some x
      → (key : T → ℕ) → ((a b : T) → cmp a b ≡ compare (key a) (key b))
      → tally (λ y. ltb (key y) (key x)) (items h) ≡ 0
