-- ===== src/Scheduler/Invariant/Counting.antt =====
-- The number of tasks in the table.
use taskette.Base.{
  ℕ, zero, suc, ◌≤◌, ◌<◌, ◌≡◌, List, [], ◌∷◌, arith, inl, inr, length, Option-cases, count,
  length-le_of_count,
}
use taskette.Heapless.{DequeLib, IndexMapLib}
use taskette.Kernel.{SchedulerState}
use taskette.Scheduler.Invariant.{Inv}

abbrev below : ℕ → List ℕ
below zero = []
below (suc n) = n ∷ below n

length-below : (n : ℕ) → length (below n) ≡ n
length-below zero = omega arith
length-below (suc n) = omega (arith, length-below n)

count-below : (a n : ℕ) → a < n → 1 ≤ count a (below n)
count-below a zero h = absurd (omega (arith, h))
count-below a (suc n) h = ground (arith, count-below a n, h)

module _ ⦃d : DequeLib⦄ ⦃m : IndexMapLib⦄ where
  -- No id is given twice, so that there are at most as many tasks as ids.
  pub length-tasks : (s : SchedulerState) → Inv s → length (m.keys s.tasks) ≤ suc s.last_task_id
  length-tasks s inv = omega (
    arith,
    length-below (suc s.last_task_id),
    length-le_of_count (m.keys s.tasks) (below (suc s.last_task_id)) (λ a.
        elim (Option-cases (m.get s.tasks a)) [
          | inl absent ↦ ground (arith, m.count-keys s.tasks a, absent)
          | inr (i, there) ↦
              let small : a < suc s.last_task_id = omega (arith, inv.placed.known a i there) in
              ground
                (arith, m.count-keys s.tasks a, there, count-below a (suc s.last_task_id) small)
        ]),
  )
