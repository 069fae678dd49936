-- ===== src/Scheduler/Queues/Effects.antt =====
-- What the three operations do to the entries of each queue and to the bit map.
use Prim.Native.Nat.{bit_or}
use taskette.Base.{
  ℕ, ◌^◌, ◌<◌, ◌≡◌, refl, ap, List, [], ◌∷◌, ◌++◌, false, not, arith, ltb, lt→ltb, ◌==◌,
  if◌then◌else◌, neb, bit, update, length, head?, tail, is_nil, keep,
}
use taskette.Base.Bits.{digit, digit-set, digit-clear}
use taskette.Heapless.{DequeLib}
use taskette.Outcome.{ok, err, task_full}
use taskette.Kernel.{Queues, num_queues, queue_len}
use taskette.Scheduler.Queues.{clear_if_empty, enqueue_task, dequeue_task, remove_task_from_queue}

module _ ⦃d : DequeLib⦄ where
  -- The entries of one queue, front first.
  abbrev pub line : Queues → ℕ → List ℕ
  line queues p = d.items (queues p)

  -- Bit `p` of the map says that queue `p` is not empty.
  abbrev pub IsMap : Queues → ℕ → Type 0
  IsMap queues map =
      (p : ℕ) → digit map p ≡ (if ltb p num_queues then bit (not (is_nil (line queues p))) else 0)

  -- Only queue `p` changes, to `xs`.
  abbrev pub Becomes : Queues → ℕ → List ℕ → Queues → Type 0
  Becomes queues p xs queues' = (j : ℕ) → line queues' j ≡ (if p == j then xs else line queues j)

  pub is_nil-append : (xs : List ℕ) (x : ℕ) → is_nil (xs ++ x ∷ []) ≡ false
  is_nil-append [] x = refl
  is_nil-append (y ∷ ys) x = refl

  Becomes-update :
      (queues : Queues) (p : ℕ) (q : d.Deque queue_len) (xs : List ℕ)
      → d.items q ≡ xs
      → Becomes queues p xs (update queues p q)
  Becomes-update queues p q xs e j = ground arith

  module _ (queues : Queues) (map : ℕ) (id p : ℕ) (in_range : p < num_queues) where
    pub enqueue_task-room :
        length (line queues p) < queue_len
        → (queues' : Queues) × (enqueue_task queues map id p ≡ ok (queues', bit_or map (2 ^ p)))
          × Becomes queues p (line queues p ++ id ∷ []) queues'
    unfolding enqueue_task
    enqueue_task-room room =
        let (q, e, items) = d.push_back-room (queues p) id room in
        (
          update queues p q,
          rw (lt→ltb p num_queues in_range, e),
          Becomes-update queues p q (line queues p ++ id ∷ []) items,
        )

    -- A full queue refuses the task.
    pub enqueue_task-full :
        length (line queues p) ≡ queue_len → enqueue_task queues map id p ≡ err task_full
    unfolding enqueue_task
    enqueue_task-full full = rw (lt→ltb p num_queues in_range, d.push_back-full (queues p) id full)

    pub dequeue_task-front :
        (queues' : Queues) × (dequeue_task queues map p
          ≡ ok (head? (line queues p), queues', clear_if_empty queues' map p))
        × Becomes queues p (tail (line queues p)) queues'
    unfolding dequeue_task
    dequeue_task-front =
        let (id, q) = d.pop_front (queues p) in
        (
          update queues p q,
          rw (lt→ltb p num_queues in_range, d.pop_front-value (queues p)),
          Becomes-update queues p q (tail (line queues p)) (d.items-pop_front (queues p)),
        )

    pub remove_task_from_queue-all :
        (queues' : Queues) × (remove_task_from_queue queues map id p
          ≡ ok (queues', clear_if_empty queues' map p))
        × Becomes queues p (keep (λ x. neb x id) (line queues p)) queues'
    unfolding remove_task_from_queue
    remove_task_from_queue-all =
        let q = d.retain (λ x. neb x id) (queues p) in
        (
          update queues p q,
          rw (lt→ltb p num_queues in_range),
          Becomes-update queues p q (keep (λ x. neb x id) (line queues p))
              (d.items-retain (λ x. neb x id) (queues p)),
        )

  module _ (queues queues' : Queues) (map p : ℕ) (in_range : p < num_queues)
      (flags : IsMap queues map) where
    -- The map stays right where a task is put in.
    pub set-IsMap :
        (xs : List ℕ)
        → is_nil xs ≡ false
        → Becomes queues p xs queues'
        → IsMap queues' (bit_or map (2 ^ p))
    set-IsMap xs full becomes j =
        ground (arith, digit-set map p j, becomes j, flags j, ap is_nil (becomes j))

    -- And where the queue is left empty or not.
    pub clear_if_empty-IsMap :
        (xs : List ℕ)
        → (is_nil xs ≡ false → is_nil (line queues p) ≡ false)
        → Becomes queues p xs queues'
        → IsMap queues' (clear_if_empty queues' map p)
    unfolding clear_if_empty
    clear_if_empty-IsMap xs was becomes j = ground (
      arith,
      d.is_empty_lem (queues' p),
      digit-clear 32 map p j (omega arith) (λ high. ground (arith, flags j)),
      ap is_nil (becomes j),
      ap is_nil (becomes p),
      flags j,
      ap (λ (t : ℕ). is_nil (line queues t)) {x = p} {y = j},
    )
