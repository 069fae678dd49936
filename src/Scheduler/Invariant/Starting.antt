-- ===== src/Scheduler/Invariant/Starting.antt =====
-- `Scheduler::init` sets the invariant up.
use taskette.Base.{
  ℕ, ◌<◌, ◌≡◌, refl, ap, false, none, some, [], ◌∷◌, arith, ◌==◌, if◌then◌else◌, bit, update,
  is_nil, count, length, length-le_of_count,
}
use taskette.Base.Bits.{digit, digit-pow}
use taskette.Heapless.{DequeLib, IndexMapLib}
use taskette.Outcome.{ok}
use taskette.Kernel.{
  TaskInfo, SchedulerState, Queues, max_num_tasks, queue_len, idle_task_id, idle_priority,
}
use taskette.Scheduler.Init.{initial_state}
use taskette.Scheduler.Queues.Effects.{line}
use taskette.Scheduler.Invariant.{Tasks, Placed, Inv}

-- The map of the state that `init` builds: bit 0 alone.
one-digit : (n : ℕ) → digit 0b1 n ≡ bit (0 == n)
one-digit n = digit-pow 0 n

one_queue : ⦃d : DequeLib⦄ → d.Deque queue_len → Queues
one_queue ⦃d⦄ queue = update (λ _. d.new) idle_priority queue

module _ ⦃d : DequeLib⦄ ⦃m : IndexMapLib⦄ (stack_limit : ℕ) where
  idle_info : TaskInfo
  idle_info = record {
    stack_pointer = 0;
    priority = idle_priority;
    blocked = false;
    stack_limit = stack_limit;
  }

  module _ (tasks : Tasks) (queue : d.Deque queue_len)
      (written : (j : ℕ) → m.get tasks j ≡ (if idle_task_id == j then some idle_info else none))
      (listed : d.items queue ≡ idle_task_id ∷ []) where
    queues-line : (p : ℕ) → line (one_queue queue) p ≡ (if 0 == p then idle_task_id ∷ [] else [])
    unfolding one_queue
    queues-line p = ground (arith, listed, d.items-new queue_len)

    queues-count :
        (p t : ℕ) → count t (line (one_queue queue) p) ≡ (if 0 == p then bit (0 == t) else 0)
    queues-count p t = ground (arith, ap (count t) (queues-line p))

    initial-Placed : Placed (λ t. idle_task_id == t) tasks (one_queue queue) 0b1 idle_task_id
    unfolding idle_info
    initial-Placed = record {
      flags = λ p. ground (arith, one-digit p, ap is_nil (queues-line p));
      listed = λ p t h k. (
        idle_info,
        ground (arith, written t, queues-count p t),
        ground (arith, queues-count p t),
        refl,
      );
      ranged = λ t i h. ground (arith, written t);
      turns = λ t i h r. ground (arith, written t, queues-count i.priority t);
      idle = (idle_info, written idle_task_id, refl, refl);
      known = λ t i h. ground (arith, written t);
    }

  starting :
      (tasks : Tasks)
      → ((j : ℕ)
          → m.get tasks j ≡ (
              if idle_task_id == j
              then some idle_info
              else m.get {V = TaskInfo} {n = max_num_tasks} m.empty j))
      → (j : ℕ) → m.get tasks j ≡ (if idle_task_id == j then some idle_info else none)
  starting tasks written j = ground (arith, written j, m.get-empty TaskInfo max_num_tasks j)

  empty_room : length (m.keys {V = TaskInfo} {n = max_num_tasks} m.empty) < max_num_tasks
  empty_room = omega (
    arith,
    length-le_of_count (m.keys {V = TaskInfo} {n = max_num_tasks} m.empty) [] (λ a. ground (
      arith,
      m.count-keys {V = TaskInfo} {n = max_num_tasks} m.empty a,
      m.get-empty TaskInfo max_num_tasks a,
    )),
  )

  -- It does not panic, and the idle task runs.
  pub initial_state-Inv :
      (s : SchedulerState) × (initial_state stack_limit ≡ ok s)
      × Inv s
      × (s.started ≡ false)
      × (s.current_task ≡ idle_task_id)
      × (s.last_task_id ≡ idle_task_id)
  unfolding initial_state idle_info one_queue
  initial_state-Inv =
      let (tasks, inserted, written) =
        m.insert-room {V = TaskInfo} {n = max_num_tasks} m.empty idle_task_id idle_info
          empty_room in
      let (queue, pushed, listed) =
        d.push_back-room {n = queue_len} d.new idle_task_id
          (rw (d.items-new queue_len) (omega arith)) in
      (
        record {
          tasks = tasks;
          last_task_id = idle_task_id;
          queues = one_queue queue;
          priority_map = 0b1;
          current_task = idle_task_id;
          started = false;
        },
        rw (inserted, initial_state, pushed),
        record {
          placed =
              initial-Placed tasks queue (starting tasks written)
                (rw (d.items-new queue_len) at listed);
          current = omega arith;
        },
        refl,
        refl,
        refl,
      )
