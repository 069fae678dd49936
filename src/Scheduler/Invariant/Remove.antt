-- ===== src/Scheduler/Invariant/Remove.antt =====
-- `remove_task_from_queue` keeps the invariant where its task is blocked or removed.
use taskette.Base.{
  ℕ, ◌<◌, ◌≡◌, ◌≢◌, ap, Bool, true, false, Option, some, List, [], ◌∷◌, arith, ◌==◌, if◌then◌else◌,
  neb, is_nil, keep, count, count-keep_ne, Bool-cases, inl, inr, eqb→eq, dec_lt,
}
use taskette.Heapless.{DequeLib, IndexMapLib}
use taskette.Outcome.{ok}
use taskette.Kernel.{TaskInfo, Queues, num_queues, idle_task_id}
use taskette.Scheduler.Queues.{remove_task_from_queue, clear_if_empty}
use taskette.Scheduler.Queues.Effects.{
  line, Becomes, remove_task_from_queue-all, clear_if_empty-IsMap,
}
use taskette.Scheduler.Invariant.{Tasks, Placed}

is_nil-keep : (p : ℕ → Bool) (xs : List ℕ) → is_nil (keep p xs) ≡ false → is_nil xs ≡ false
is_nil-keep p [] h = h
is_nil-keep p (x ∷ xs) h = ground arith

module _ ⦃d : DequeLib⦄ ⦃m : IndexMapLib⦄ {runs : ℕ → Bool} {tasks : Tasks} {queues : Queues}
    {map last : ℕ} (inv : Placed runs tasks queues map last) (t : ℕ) (i : TaskInfo) (tasks' : Tasks)
    (left : Option TaskInfo) where
  -- Task `t`, which was `i`, is written as `left`: gone, or blocked.
  pub record Leaves : Type 0 where
    pub there : m.get tasks t ≡ some i
    pub written : (j : ℕ) → m.get tasks' j ≡ (if t == j then left else m.get tasks j)
    pub gone : (j : TaskInfo) → left ≡ some j → (j.blocked ≡ true) × (j.priority ≡ i.priority)
    pub not_idle : t ≢ idle_task_id

  module _ (e : Leaves) where
    open e use {there, written, gone, not_idle}

    in_range : i.priority < num_queues
    in_range = inv.ranged t i there

    module _ (queues' : Queues)
        (becomes : Becomes queues i.priority
          (keep (λ x. neb x t) (line queues i.priority))
          queues') where
      left-count :
          (p a : ℕ)
          → p < num_queues
          → count a (line queues' p) ≡ (if t == a then 0 else count a (line queues p))
      left-count p a h = elim (Bool-cases (i.priority == p)) [
        | inl here ↦ ground (
          arith,
          here,
          ap (count a) (becomes p),
          count-keep_ne t a (line queues i.priority),
          ap (λ (q : ℕ). count a (line queues q)) (eqb→eq i.priority p here),
        )
        | inr there' ↦ elim (dec_lt 0 (count t (line queues p))) [
          | yes listed ↦
              let (j, at, same, free) = inv.listed p t h listed in
              absurd (ground (arith, there', at, there, same))
          | no empty ↦ ground (
            arith,
            there',
            ap (count a) (becomes p),
            ap (λ (x : ℕ). count x (line queues p)) {x = t} {y = a},
          )
        ]
      ]

      left-Placed : Placed runs tasks' queues' (clear_if_empty queues' map i.priority) last
      left-Placed = record {
        flags =
            clear_if_empty-IsMap queues queues' map i.priority in_range inv.flags
              (keep (λ x. neb x t) (line queues i.priority))
              (is_nil-keep (λ x. neb x t) (line queues i.priority)) becomes;
        listed = λ p a h k.
            let (j, at, same, free) = inv.listed p a h (ground (arith, left-count p a h)) in
            (j, ground (arith, written a, left-count p a h, at), same, free);
        ranged = λ a j h. ground (arith, written a, inv.ranged a j, gone j, in_range);
        turns = λ a j h r.
            ground
              (arith, written a, gone j, inv.ranged a j, left-count j.priority a, inv.turns a j);
        idle =
            let (j, at, same, free) = inv.idle in
            (j, ground (arith, written idle_task_id, not_idle, at), same, free);
        known = λ a j h. ground (arith, written a, inv.known a j, inv.known t i there);
      }

    pub remove_task_from_queue-Placed :
        (queues' : Queues) × (remove_task_from_queue queues map t i.priority
          ≡ ok (queues', clear_if_empty queues' map i.priority))
        × Placed runs tasks' queues' (clear_if_empty queues' map i.priority) last
    remove_task_from_queue-Placed =
        let (queues', runs_ok, becomes) =
          remove_task_from_queue-all queues map t i.priority in_range in
        (queues', runs_ok, left-Placed queues' becomes)
