-- ===== src/Heapless/Lists/Maps.antt =====
-- A map as an association list, with the proof that it fits and holds no key twice.
use taskette.Base.{
  ℕ, ◌≤◌, ◌<◌, ◌≡◌, refl, true, false, Option, none, some, List, [], ◌∷◌, arith, dec_lt,
  if◌then◌else◌, ◌==◌, bit, is_some, length, count, Bool-cases, eqb→eq, ap, inl, inr, ◌⊎◌,
}
use taskette.Heapless.{IndexMapLib}

module _ {V : Type 0} where
  abbrev pub key_list : List (ℕ × V) → List ℕ
  key_list [] = []
  key_list ((k, v) ∷ m) = k ∷ key_list m

  abbrev pub find : List (ℕ × V) → ℕ → Option V
  find [] j = none
  find ((k, v) ∷ m) j = if k == j then some v else find m j

  abbrev pub overwrite : List (ℕ × V) → ℕ → V → List (ℕ × V)
  overwrite [] j w = []
  overwrite ((k, v) ∷ m) j w = (k, (if k == j then w else v)) ∷ overwrite m j w

  abbrev pub without : List (ℕ × V) → ℕ → List (ℕ × V)
  without [] j = []
  without ((k, v) ∷ m) j = let rest = without m j in if k == j then rest else (k, v) ∷ rest

  abbrev pub Distinct : List (ℕ × V) → Type 0
  Distinct m = (k : ℕ) → count k (key_list m) ≡ bit (is_some (find m k))

  pub key_list-overwrite :
      (m : List (ℕ × V)) (j : ℕ) (w : V) → key_list (overwrite m j w) ≡ key_list m
  key_list-overwrite [] j w = refl
  key_list-overwrite ((k, v) ∷ m) j w = ground (arith, key_list-overwrite m j w)

  find-overwrite_all :
      (m : List (ℕ × V)) (j i : ℕ) (w : V)
      → find (overwrite m j w) i
        ≡ (if j == i then (if is_some (find m j) then some w else none) else find m i)
  find-overwrite_all [] j i w = ground arith
  find-overwrite_all ((k, v) ∷ m) j i w = ground (arith, find-overwrite_all m j i w)

  pub find-overwrite :
      (m : List (ℕ × V)) (j i : ℕ) (w : V)
      → is_some (find m j) ≡ true
      → find (overwrite m j w) i ≡ (if j == i then some w else find m i)
  find-overwrite m j i w h = rw (find-overwrite_all m j i w, h)

  is_some-overwrite :
      (m : List (ℕ × V)) (j i : ℕ) (w : V) → is_some (find (overwrite m j w) i) ≡ is_some (find m i)
  is_some-overwrite [] j i w = refl
  is_some-overwrite ((k, v) ∷ m) j i w = ground (arith, is_some-overwrite m j i w)

  pub find-without :
      (m : List (ℕ × V)) (j i : ℕ) → find (without m j) i ≡ (if j == i then none else find m i)
  find-without [] j i = ground arith
  find-without ((k, v) ∷ m) j i = ground (arith, find-without m j i)

  pub count-without :
      (m : List (ℕ × V)) (j i : ℕ)
      → count i (key_list (without m j)) ≡ (if j == i then 0 else count i (key_list m))
  count-without [] j i = ground arith
  count-without ((k, v) ∷ m) j i = ground (arith, count-without m j i)

  pub length-without :
      (m : List (ℕ × V)) (j : ℕ) → length (key_list (without m j)) ≤ length (key_list m)
  length-without [] j = omega arith
  length-without ((k, v) ∷ m) j = ground (arith, length-without m j)

  pub Distinct-overwrite :
      (m : List (ℕ × V)) (j : ℕ) (w : V) → Distinct m → Distinct (overwrite m j w)
  Distinct-overwrite m j w d i = rw (key_list-overwrite m j w, is_some-overwrite m j i w) (d i)

  pub Distinct-without : (m : List (ℕ × V)) (j : ℕ) → Distinct m → Distinct (without m j)
  Distinct-without m j d i = ground (arith, d i, find-without m j i, count-without m j i)

  pub Distinct-cons :
      (m : List (ℕ × V)) (j : ℕ) (w : V)
      → is_some (find m j) ≡ false
      → Distinct m
      → Distinct ((j, w) ∷ m)
  Distinct-cons m j w h d i =
      ground (arith, d i, eqb→eq j i, ap (λ (t : ℕ). is_some (find m t)) {x = j} {y = i})

abbrev pub Table : Type 0 → ℕ → Type 0
Table V n = (m : List (ℕ × V)) × (length (key_list m) ≤ n) × Distinct m

module _ {V : Type 0} {n : ℕ} where
  abbrev pub Inserted : Table V n → ℕ → V → Option (Table V n) → Type 0
  Inserted t k v r =
      (t' : Table V n) × (r ≡ some t')
      × ((j : ℕ) → find t'.0 j ≡ (if k == j then some v else find t.0 j))

  unfoldable pub overwritten : Table V n → ℕ → V → Table V n
  overwritten t k v =
      (overwrite t.0 k v, rw (key_list-overwrite t.0 k v) t.1, Distinct-overwrite t.0 k v t.2)

  unfoldable pub removed : Table V n → ℕ → Table V n
  removed t k =
      (without t.0 k, omega (arith, length-without t.0 k, t.1), Distinct-without t.0 k t.2)

  unfoldable pub insert_new :
      (t : Table V n) (k : ℕ)
      → V
      → is_some (find t.0 k) ≡ false
      → Dec (length (key_list t.0) < n)
      → Option (Table V n)
  insert_new t k v new (yes room) = some ((k, v) ∷ t.0, room, Distinct-cons t.0 k v new t.2)
  insert_new t k v new (no full) = none

  unfoldable pub insert_by :
      (t : Table V n) (k : ℕ)
      → V
      → (is_some (find t.0 k) ≡ true) ⊎ (is_some (find t.0 k) ≡ false)
      → Option (Table V n)
  unfolding insert_new
  insert_by t k v (inl old) = some (overwritten t k v)
  insert_by t k v (inr new) = insert_new t k v new (dec_lt (length (key_list t.0)) n)

  unfoldable pub insert_into : Table V n → ℕ → V → Option (Table V n)
  unfolding insert_by Bool-cases
  insert_into t k v = insert_by t k v (Bool-cases (is_some (find t.0 k)))

  pub insert_by-present :
      (t : Table V n) (k : ℕ) (v : V)
      (c : (is_some (find t.0 k) ≡ true) ⊎ (is_some (find t.0 k) ≡ false))
      → is_some (find t.0 k) ≡ true
      → Inserted t k v (insert_by t k v c)
  unfolding insert_by overwritten
  insert_by-present t k v (inl old) h = (overwritten t k v, refl, λ j. find-overwrite t.0 k j v old)
  insert_by-present t k v (inr new) h = cc

  insert_new-room :
      (t : Table V n) (k : ℕ) (v : V) (new : is_some (find t.0 k) ≡ false)
      (d : Dec (length (key_list t.0) < n))
      → length (key_list t.0) < n
      → Inserted t k v (insert_new t k v new d)
  unfolding insert_new
  insert_new-room t k v new (yes room) h =
      (((k, v) ∷ t.0, room, Distinct-cons t.0 k v new t.2), refl, λ j. refl)
  insert_new-room t k v new (no full) h = absurd (full h)

  pub insert_by-room :
      (t : Table V n) (k : ℕ) (v : V)
      (c : (is_some (find t.0 k) ≡ true) ⊎ (is_some (find t.0 k) ≡ false))
      → length (key_list t.0) < n
      → Inserted t k v (insert_by t k v c)
  unfolding insert_by overwritten
  insert_by-room t k v (inl old) h = (overwritten t k v, refl, λ j. find-overwrite t.0 k j v old)
  insert_by-room t k v (inr new) h = insert_new-room t k v new (dec_lt (length (key_list t.0)) n) h

  insert_new-full :
      (t : Table V n) (k : ℕ) (v : V) (new : is_some (find t.0 k) ≡ false)
      (d : Dec (length (key_list t.0) < n))
      → length (key_list t.0) ≡ n
      → insert_new t k v new d ≡ none
  unfolding insert_new
  insert_new-full t k v new (yes room) h = absurd (omega arith)
  insert_new-full t k v new (no full) h = refl

  pub insert_by-full :
      (t : Table V n) (k : ℕ) (v : V)
      (c : (is_some (find t.0 k) ≡ true) ⊎ (is_some (find t.0 k) ≡ false))
      → length (key_list t.0) ≡ n
      → find t.0 k ≡ none
      → insert_by t k v c ≡ none
  unfolding insert_by
  insert_by-full t k v (inl old) h e = absurd (ground (arith, ap (is_some {A = V}) e))
  insert_by-full t k v (inr new) h e =
      insert_new-full t k v new (dec_lt (length (key_list t.0)) n) h

unfoldable pub nothing : (V : Type 0) (n : ℕ) → Table V n
nothing V n = ([], omega arith, λ k. refl)

instance unfoldable pub list_map : IndexMapLib
unfolding insert_into overwritten removed nothing dec_lt
list_map = record {
  IndexMap = Table;
  keys = λ t. key_list t.0;
  empty = λ {V} {n}. nothing V n;
  get = λ t k. find t.0 k;
  put = overwritten;
  insert = insert_into;
  remove = λ t k. (find t.0 k, removed t k);
  length-keys = λ t. t.1;
  count-keys = λ t. t.2;
  get-empty = λ V n k. refl;
  get-put = λ t k j v. find-overwrite t.0 k j v;
  insert-full = λ t k v. insert_by-full t k v (Bool-cases (is_some (find t.0 k)));
  insert-room = λ t k v. insert_by-room t k v (Bool-cases (is_some (find t.0 k)));
  insert-present = λ t k v. insert_by-present t k v (Bool-cases (is_some (find t.0 k)));
  remove-value = λ t k. refl;
  get-remove = λ t k j. find-without t.0 k j;
}
