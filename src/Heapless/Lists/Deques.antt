-- ===== src/Heapless/Lists/Deques.antt =====
-- A deque as a list with a proof that it fits the capacity.
use taskette.Base.{
  ℕ, ◌≤◌, ◌<◌, ◌≡◌, refl, Bool, Option, none, some, List, [], ◌∷◌, ◌++◌, arith, dec_lt, length,
  length-append, head?, tail, is_nil, keep,
}
use taskette.Heapless.{DequeLib}

abbrev pub Bounded : ℕ → Type 0
Bounded n = (xs : List ℕ) × (length xs ≤ n)

pub length-tail : (n : ℕ) (xs : List ℕ) → length xs ≤ n → length (tail xs) ≤ n
length-tail n [] h = h
length-tail n (x ∷ xs) h = omega arith

length-keep-le : (p : ℕ → Bool) (xs : List ℕ) → length (keep p xs) ≤ length xs
length-keep-le p [] = omega arith
length-keep-le p (x ∷ xs) = ground (arith, length-keep-le p xs)

pub length-keep : (p : ℕ → Bool) (n : ℕ) (xs : List ℕ) → length xs ≤ n → length (keep p xs) ≤ n
length-keep p n xs h = omega (arith, length-keep-le p xs)

pub length-push : (n x : ℕ) (xs : List ℕ) → length xs < n → length (xs ++ x ∷ []) ≤ n
length-push n x xs h = omega (arith, length-append xs (x ∷ []))

unfoldable pub push_at :
    (n x : ℕ) (xs : List ℕ) → length xs ≤ n → Dec (length xs < n) → Option (Bounded n)
push_at n x xs h (yes room) = some (xs ++ x ∷ [], length-push n x xs room)
push_at n x xs h (no full) = none

pub push_at-full :
    (n x : ℕ) (xs : List ℕ) (h : length xs ≤ n) (d : Dec (length xs < n))
    → length xs ≡ n
    → push_at n x xs h d ≡ none
unfolding push_at
push_at-full n x xs h (yes room) e = absurd (omega arith)
push_at-full n x xs h (no full) e = refl

pub push_at-room :
    (n x : ℕ) (xs : List ℕ) (h : length xs ≤ n) (d : Dec (length xs < n))
    → length xs < n
    → (e : Bounded n) × (push_at n x xs h d ≡ some e) × (e.0 ≡ xs ++ x ∷ [])
unfolding push_at
push_at-room n x xs h (yes room) k = ((xs ++ x ∷ [], length-push n x xs room), refl, refl)
push_at-room n x xs h (no full) k = absurd (full k)

instance unfoldable pub list_deque : DequeLib
unfolding push_at dec_lt
list_deque = record {
  Deque = Bounded;
  items = λ d. d.0;
  new = λ {n}. ([], omega arith);
  push_back = λ {n} d x. push_at n x d.0 d.1 (dec_lt (length d.0) n);
  pop_front = λ {n} d. (head? d.0, (tail d.0, length-tail n d.0 d.1));
  is_empty = λ d. is_nil d.0;
  retain = λ {n} p d. (keep p d.0, length-keep p n d.0 d.1);
  length-items = λ d. d.1;
  items-new = λ n. refl;
  push_back-full = λ {n} d x. push_at-full n x d.0 d.1 (dec_lt (length d.0) n);
  push_back-room = λ {n} d x. push_at-room n x d.0 d.1 (dec_lt (length d.0) n);
  pop_front-value = λ d. refl;
  items-pop_front = λ d. refl;
  is_empty_lem = λ d. refl;
  items-retain = λ p d. refl;
}
