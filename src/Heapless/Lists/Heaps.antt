-- ===== src/Heapless/Lists/Heaps.antt =====
-- A heap as a list in any order: the least entry is looked for when it is wanted.
use Prim.Native.Nat.{compare, Ordering}
use taskette.Base.{
  ℕ, ◌+◌, ◌≤◌, ◌<◌, ◌≡◌, refl, Bool, true, false, Option, none, some, List, [], ◌∷◌, arith, dec_lt,
  if◌then◌else◌, ltb, bit, length, tally, subst,
}
use mathlib.Core.Option.{some-injective}
use taskette.Heapless.{BinaryHeapLib}

module _ {T : Type 0} (cmp : T → T → Ordering) where
  abbrev pub greater : T → T → Bool
  greater x y = elim (cmp x y) [ Ordering.gt ↦ true | _ ↦ false ]

  abbrev pub place : T → T × List T → T × List T
  place x (m, rest) = if greater x m then (m, x ∷ rest) else (x, m ∷ rest)

  -- The least entry, and the others.
  abbrev pub extract : T → List T → T × List T
  extract x [] = (x, [])
  extract x (y ∷ ys) = place x (extract y ys)

  pub tally-extract :
      (p : T → Bool) (x : T) (xs : List T)
      → bit (p x) + tally p xs ≡ bit (p (extract x xs).0) + tally p (extract x xs).1
  tally-extract p x [] = omega arith
  tally-extract p x (y ∷ ys) = ground (arith, tally-extract p y ys)

  pub length-extract : (x : T) (xs : List T) → length (extract x xs).1 ≡ length xs
  length-extract x [] = omega arith
  length-extract x (y ∷ ys) = ground (arith, length-extract y ys)

  tally-below :
      (key : T → ℕ) (a b : ℕ) (xs : List T)
      → a ≤ b
      → tally (λ y. ltb (key y) a) xs ≤ tally (λ y. ltb (key y) b) xs
  tally-below key a b [] h = omega arith
  tally-below key a b (x ∷ xs) h = ground (arith, tally-below key a b xs h)

  pub extract-least :
      (key : T → ℕ)
      → ((a b : T) → cmp a b ≡ compare (key a) (key b))
      → (x : T) (xs : List T)
      → let m = (extract x xs).0 in
        bit (ltb (key x) (key m)) + tally (λ y. ltb (key y) (key m)) xs ≡ 0
  extract-least key ordered x [] = ground arith
  extract-least key ordered x (y ∷ ys) = ground (
    arith,
    ordered x (extract y ys).0,
    extract-least key ordered y ys,
    tally-below key (key x) (key (extract y ys).0) ys,
  )

abbrev pub Pile : Type 0 → ℕ → Type 0
Pile T n = (xs : List T) × (length xs ≤ n)

module _ {T : Type 0} (cmp : T → T → Ordering) where
  abbrev pub first : List T → Option T
  first [] = none
  first (x ∷ xs) = some (extract cmp x xs).0

  abbrev pub others : List T → List T
  others [] = []
  others (x ∷ xs) = (extract cmp x xs).1

  pub length-others : (n : ℕ) (xs : List T) → length xs ≤ n → length (others xs) ≤ n
  length-others n [] h = h
  length-others n (x ∷ xs) h = omega (arith, length-extract cmp x xs)

  pub tally-others :
      (xs : List T) (x : T)
      → first xs ≡ some x
      → (p : T → Bool) → tally p xs ≡ bit (p x) + tally p (others xs)
  tally-others [] x h p = cc
  tally-others (y ∷ ys) x h p = ground (arith, tally-extract cmp p y ys)

  pub first-none : (xs : List T) → first xs ≡ none → xs ≡ []
  first-none [] h = refl
  first-none (x ∷ xs) h = cc

  pub first-least :
      (xs : List T) (x : T)
      → first xs ≡ some x
      → (key : T → ℕ) → ((a b : T) → cmp a b ≡ compare (key a) (key b))
      → tally (λ y. ltb (key y) (key x)) xs ≡ 0
  first-least [] x h key ordered = cc
  first-least (y ∷ ys) x h key ordered =
      subst (λ (t : T). tally (λ z. ltb (key z) (key t)) (y ∷ ys) ≡ 0) (some-injective _ _ h)
        (extract-least cmp key ordered y ys)

  unfoldable pub push_at : (n : ℕ) → T → (xs : List T) → Dec (length xs < n) → Option (Pile T n)
  push_at n x xs (yes room) = some (x ∷ xs, room)
  push_at n x xs (no full) = none

  pub push_at-full :
      (n : ℕ) (x : T) (xs : List T) (d : Dec (length xs < n))
      → length xs ≡ n
      → push_at n x xs d ≡ none
  unfolding push_at
  push_at-full n x xs (yes room) e = absurd (omega arith)
  push_at-full n x xs (no full) e = refl

  pub push_at-room :
      (n : ℕ) (x : T) (xs : List T) (d : Dec (length xs < n))
      → length xs < n
      → (g : Pile T n) × (push_at n x xs d ≡ some g)
        × ((p : T → Bool) → tally p g.0 ≡ bit (p x) + tally p xs)
  unfolding push_at
  push_at-room n x xs (yes room) k = ((x ∷ xs, room), refl, λ p. refl)
  push_at-room n x xs (no full) k = absurd (full k)

unfoldable pub nothing : (T : Type 0) (n : ℕ) → Pile T n
nothing T n = ([], omega arith)

instance unfoldable pub list_heap : BinaryHeapLib
unfolding push_at dec_lt nothing
list_heap = record {
  BinaryHeap = λ T cmp n. Pile T n;
  items = λ h. h.0;
  new = λ {T} {cmp} {n}. nothing T n;
  push = λ {T} {cmp} {n} h x. push_at cmp n x h.0 (dec_lt (length h.0) n);
  peek = λ {T} {cmp} h. first cmp h.0;
  pop = λ {T} {cmp} {n} h. (others cmp h.0, length-others cmp n h.0 h.1);
  length-items = λ h. h.1;
  items-new = λ T cmp n. refl;
  push-full = λ {T} {cmp} {n} h x. push_at-full cmp n x h.0 (dec_lt (length h.0) n);
  push-room = λ {T} {cmp} {n} h x. push_at-room cmp n x h.0 (dec_lt (length h.0) n);
  peek-none = λ {T} {cmp} h. first-none cmp h.0;
  pop_lem = λ {T} {cmp} h x. tally-others cmp h.0 x;
  peek-least = λ {T} {cmp} h x. first-least cmp h.0 x;
}
