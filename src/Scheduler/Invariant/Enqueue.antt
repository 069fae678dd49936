-- ===== src/Scheduler/Invariant/Enqueue.antt =====
-- `enqueue_task` finds room, and the invariant holds after it.
use Prim.Native.Nat.{bit_or}
use taskette.Base.{
  ℕ, ◌+◌, ◌^◌, ◌≤◌, ◌<◌, ◌≡◌, ap, Bool, false, some, [], ◌∷◌, ◌++◌, arith, ◌==◌, if◌then◌else◌, bit,
  length, count, count-append, Bool-cases, inl, inr, eqb→eq,
}
use taskette.Heapless.{DequeLib, IndexMapLib}
use taskette.Outcome.{ok}
use taskette.Kernel.{TaskInfo, Queues, num_queues, queue_len, idle_task_id, idle_priority}
use taskette.Scheduler.Queues.{enqueue_task}
use taskette.Scheduler.Queues.Effects.{line, Becomes, enqueue_task-room, set-IsMap, is_nil-append}
use taskette.Scheduler.Invariant.{Tasks, Placed, room_of_counts, count-le}

module _ ⦃d : DequeLib⦄ ⦃m : IndexMapLib⦄ {runs : ℕ → Bool} {tasks : Tasks} {queues : Queues}
    {map last : ℕ} (inv : Placed runs tasks queues map last) (t : ℕ) (i : TaskInfo) (tasks' : Tasks)
    (last' : ℕ) where
  -- Task `t` is written as `i`, and stands in the queues as often as a task that has its turn.
  pub record Enters : Type 0 where
    pub written : (j : ℕ) → m.get tasks' j ≡ (if t == j then some i else m.get tasks j)
    pub ready : i.blocked ≡ false
    pub in_range : i.priority < num_queues
    pub alone : (p : ℕ) → p < num_queues → 0 < count t (line queues p) → p ≡ i.priority
    pub before : count t (line queues i.priority) ≡ bit (t == idle_task_id)
    pub idle_first : t ≡ idle_task_id → i.priority ≡ idle_priority
    pub grows : last ≤ last'
    pub within : t ≤ last'

  module _ (e : Enters) where
    open e use {written, ready, in_range, alone, before, idle_first, grows, within}

    room : length (line queues i.priority) < queue_len
    room = room_of_counts tasks' (line queues i.priority) t λ a. ground (
      arith,
      count-append a (line queues i.priority) (t ∷ []),
      count-le inv i.priority a in_range,
      written a,
      before,
      ap (λ (x : ℕ). count x (line queues i.priority)) {x = t} {y = a},
    )

    module _ (queues' : Queues)
        (becomes : Becomes queues i.priority (line queues i.priority ++ t ∷ []) queues') where
      entered-count :
          (p a : ℕ)
          → count a (line queues' p)
            ≡ count a (line queues p) + (if i.priority == p then bit (t == a) else 0)
      entered-count p a = ground (
        arith,
        ap (count a) (becomes p),
        count-append a (line queues i.priority) (t ∷ []),
        ap (λ (q : ℕ). count a (line queues q)) {x = i.priority} {y = p},
      )

      entered-here :
          (p a : ℕ) → p < num_queues → 0 < count a (line queues' p) → t ≡ a → i.priority ≡ p
      entered-here p a h k e =
          ground (arith, entered-count p a, alone p h, ap (λ (x : ℕ). count x (line queues p)) e)

      entered-turns :
          (a : ℕ) (j : TaskInfo)
          → m.get tasks' a ≡ some j
          → j.blocked ≡ false
          → count a (line queues' j.priority) + bit (if t == a then false else runs a)
            ≡ 1 + bit (a == idle_task_id)
      entered-turns a j h r = elim (Bool-cases (t == a)) [
        | inl e ↦ ground (
          arith,
          written a,
          entered-count j.priority a,
          before,
          eqb→eq t a e,
          ap (λ (x : ℕ). count x (line queues i.priority)) {x = t} {y = a},
          ap (λ (q : ℕ). count a (line queues q)) {x = i.priority} {y = j.priority},
        )
        | inr e ↦ ground (arith, written a, entered-count j.priority a, inv.turns a j)
      ]

      entered-idle :
          (j : TaskInfo) × (m.get tasks' idle_task_id ≡ some j)
          × (j.priority ≡ idle_priority)
          × (j.blocked ≡ false)
      entered-idle = elim (Bool-cases (t == idle_task_id)) [
        | inl e ↦ (i, rw (written idle_task_id, e), idle_first (eqb→eq t idle_task_id e), ready)
        | inr e ↦
            let (j, there, same, free) = inv.idle in
            (j, rw (written idle_task_id, e) there, same, free)
      ]

      entered-Placed :
          Placed
            (λ j. if t == j then false else runs j)
            tasks'
            queues'
            (bit_or map (2 ^ i.priority))
            last'
      entered-Placed = record {
        flags =
            set-IsMap queues queues' map i.priority in_range inv.flags
              (line queues i.priority ++ t ∷ []) (is_nil-append (line queues i.priority) t) becomes;
        listed = λ p a h k. elim (Bool-cases (t == a)) [
          | inl e ↦ (i, rw (written a, e), entered-here p a h k (eqb→eq t a e), ready)
          | inr e ↦
              let (j, there, same, free) = inv.listed p a h (ground (arith, entered-count p a)) in
              (j, rw (written a, e) there, same, free)
        ];
        ranged = λ a j h. ground (arith, written a, inv.ranged a j);
        turns = entered-turns;
        idle = entered-idle;
        known = λ a j h. ground (arith, written a, inv.known a j);
      }

    pub enqueue_task-Placed :
        (queues' : Queues) × (enqueue_task queues map t i.priority
          ≡ ok (queues', bit_or map (2 ^ i.priority)))
        × Becomes queues i.priority (line queues i.priority ++ t ∷ []) queues'
        × Placed
            (λ j. if t == j then false else runs j)
            tasks'
            queues'
            (bit_or map (2 ^ i.priority))
            last'
    enqueue_task-Placed =
        let (queues', runs_ok, becomes) = enqueue_task-room queues map t i.priority in_range room in
        (queues', runs_ok, becomes, entered-Placed queues' becomes)
