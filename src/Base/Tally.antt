-- ===== src/Base/Tally.antt =====
-- Lists seen through the number of entries that pass a test, and the pigeonhole principle.
use Prim.Native.Nat.{ℕ, suc, ◌+◌, ◌≤◌, ◌<◌}
use mathlib.Core.Path.{◌≡◌}
use mathlib.Core.Bool.{Bool, true, false}
use mathlib.Core.Option.{Option, none, some}
use mathlib.Core.List.{List, [], ◌∷◌, ◌++◌}
use native.Mathlib.Omega.{arith}
use taskette.Base.Tests.{if◌then◌else◌, ◌==◌, neb, bit}

module _ {ℓ} {A : Type ℓ} where
  abbrev pub length : List A → ℕ
  length [] = 0
  length (x ∷ xs) = suc (length xs)

  pub length-append : (xs ys : List A) → length (xs ++ ys) ≡ length xs + length ys
  length-append [] ys = omega arith
  length-append (x ∷ xs) ys = omega (arith, length-append xs ys)

  abbrev pub head? : List A → Option A
  head? [] = none
  head? (x ∷ xs) = some x

  abbrev pub tail : List A → List A
  tail [] = []
  tail (x ∷ xs) = xs

  abbrev pub is_nil : List A → Bool
  is_nil [] = true
  is_nil (x ∷ xs) = false

  -- The entries that pass the test, in order.
  abbrev pub keep : (A → Bool) → List A → List A
  keep p [] = []
  keep p (x ∷ xs) = let rest = keep p xs in if p x then x ∷ rest else rest

  -- The number of entries that pass the test.
  abbrev pub tally : (A → Bool) → List A → ℕ
  tally p [] = 0
  tally p (x ∷ xs) = bit (p x) + tally p xs

  pub tally-append : (p : A → Bool) (xs ys : List A) → tally p (xs ++ ys) ≡ tally p xs + tally p ys
  tally-append p [] ys = omega arith
  tally-append p (x ∷ xs) ys = omega (arith, tally-append p xs ys)

  pub tally-le-length : (p : A → Bool) (xs : List A) → tally p xs ≤ length xs
  tally-le-length p [] = omega arith
  tally-le-length p (x ∷ xs) = ground (arith, tally-le-length p xs)

-- The number of occurrences of a number.
abbrev pub count : ℕ → List ℕ → ℕ
count a = tally (λ x. x == a)

pub count-append : (a : ℕ) (xs ys : List ℕ) → count a (xs ++ ys) ≡ count a xs + count a ys
count-append a xs ys = tally-append (λ x. x == a) xs ys

-- Dropping one number leaves the occurrences of the others.
pub count-keep_ne :
    (a b : ℕ) (xs : List ℕ) → count b (keep (λ x. neb x a) xs) ≡ (if b == a then 0 else count b xs)
count-keep_ne a b [] = ground arith
count-keep_ne a b (x ∷ xs) = ground (arith, count-keep_ne a b xs)

-- The first occurrence is taken out.
remove_first : ℕ → List ℕ → List ℕ
remove_first a [] = []
remove_first a (x ∷ xs) = let rest = remove_first a xs in if x == a then xs else x ∷ rest

count-remove_first :
    (a b : ℕ) (xs : List ℕ)
    → 0 < count a xs
    → count b (remove_first a xs) + bit (a == b) ≡ count b xs
unfolding remove_first
count-remove_first a b [] h = absurd (omega arith)
count-remove_first a b (x ∷ xs) h = ground (arith, count-remove_first a b xs)

length-remove_first :
    (a : ℕ) (xs : List ℕ) → 0 < count a xs → suc (length (remove_first a xs)) ≡ length xs
unfolding remove_first
length-remove_first a [] h = absurd (omega arith)
length-remove_first a (x ∷ xs) h = ground (arith, length-remove_first a xs)

-- A list that holds no number more often than another one is no longer than it.
pub length-le_of_count :
    (xs ys : List ℕ) → ((a : ℕ) → count a xs ≤ count a ys) → length xs ≤ length ys
length-le_of_count [] ys h = omega arith
length-le_of_count (x ∷ xs) ys h =
    let there : 0 < count x ys = ground (arith, h x) in
    let rest : length xs ≤ length (remove_first x ys) =
      length-le_of_count xs (remove_first x ys)
        (λ a. ground (arith, h a, count-remove_first x a ys there)) in
    omega (arith, rest, length-remove_first x ys there)
