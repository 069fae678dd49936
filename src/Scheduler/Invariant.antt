-- ===== src/Scheduler/Invariant.antt =====
-- The invariant of the scheduler's state, and what it says of the room in the queues.
pub mod Counting
pub mod Enqueue
pub mod Remove
pub mod Blocking
pub mod Storing
pub mod Choosing
pub mod Switching
pub mod Overflow
pub mod Spawning
pub mod Starting
pub mod Removing
use taskette.Base.{
  ℕ, suc, ◌+◌, ◌≤◌, ◌<◌, ◌≡◌, ◌≢◌, refl, ap, Bool, true, false, Option, none, some, List, [], ◌∷◌,
  ◌++◌, arith, ◌*◌, dec_lt, ◌==◌, bit, is_some, length, length-append, count, length-le_of_count,
  subst, if◌then◌else◌, Bool-cases, inl, inr, eqb→eq,
}
use taskette.Heapless.{DequeLib, IndexMapLib}
use taskette.Kernel.{
  TaskInfo, SchedulerState, Queues, num_queues, max_num_tasks, queue_len, idle_task_id,
  idle_priority,
}
use taskette.Scheduler.Queues.Effects.{line, IsMap}

module _ ⦃d : DequeLib⦄ ⦃m : IndexMapLib⦄ where
  abbrev pub Tasks : Type 0
  Tasks = m.IndexMap TaskInfo max_num_tasks

  -- Where each task stands; `runs` tells the task that has the processor.
  pub record Placed (runs : ℕ → Bool) (tasks : Tasks) (queues : Queues) (map last : ℕ)
      : Type 0 where
    -- The bit map tells the queues that are not empty.
    pub flags : IsMap queues map
    -- A queue holds tasks of its priority that are ready.
    pub listed :
        (p t : ℕ)
        → p < num_queues
        → 0 < count t (line queues p)
        → (i : TaskInfo) × (m.get tasks t ≡ some i) × (i.priority ≡ p) × (i.blocked ≡ false)
    pub ranged : (t : ℕ) (i : TaskInfo) → m.get tasks t ≡ some i → i.priority < num_queues
    -- A ready task stands in its queue once or has the processor; the idle task once more.
    pub turns :
        (t : ℕ) (i : TaskInfo)
        → m.get tasks t ≡ some i
        → i.blocked ≡ false
        → count t (line queues i.priority) + bit (runs t) ≡ 1 + bit (t == idle_task_id)
    -- The idle task is there and ready.
    pub idle :
        (i : TaskInfo) × (m.get tasks idle_task_id ≡ some i)
        × (i.priority ≡ idle_priority)
        × (i.blocked ≡ false)
    pub known : (t : ℕ) (i : TaskInfo) → m.get tasks t ≡ some i → t ≤ last

  pub record Inv (s : SchedulerState) : Type 0 where
    pub placed : Placed (λ t. s.current_task == t) s.tasks s.queues s.priority_map s.last_task_id
    pub current : s.current_task ≤ s.last_task_id

  -- The idle task may stand twice, any other task once.
  pub room_of_counts :
      (tasks : Tasks) (xs : List ℕ) (t : ℕ)
      → ((a : ℕ) → count a (xs ++ t ∷ []) ≤ bit (0 == a) + bit (is_some (m.get tasks a)))
      → length xs < queue_len
  room_of_counts tasks xs t h = omega (
    arith,
    length-append xs (t ∷ []),
    m.length-keys tasks,
    length-le_of_count (xs ++ t ∷ []) (0 ∷ m.keys tasks)
        (λ a. omega (arith, h a, m.count-keys tasks a)),
  )

  module _ {runs : ℕ → Bool} {tasks : Tasks} {queues : Queues} {map last : ℕ}
      (inv : Placed runs tasks queues map last) where
    -- A task stands in a queue at most once, the idle task at most twice.
    pub count-le :
        (p a : ℕ)
        → p < num_queues
        → count a (line queues p) ≤ (bit (idle_task_id == a) + 1) * bit (is_some (m.get tasks a))
    count-le p a h = elim (dec_lt 0 (count a (line queues p))) [
      | no empty ↦ omega arith
      | yes some_there ↦
          let (i, there, same, ready) = inv.listed p a h some_there in
          let turn = inv.turns a i there ready in
          ground
            (arith, ap (λ (q : ℕ). count a (line queues q)) same, ap (is_some {A = TaskInfo}) there)
    ]

    -- A task that is blocked or gone stands in no queue.
    pub count-blocked :
        (p t : ℕ) (i : TaskInfo)
        → p < num_queues
        → m.get tasks t ≡ some i
        → i.blocked ≡ true
        → count t (line queues p) ≡ 0
    count-blocked p t i h there blocked = elim (dec_lt 0 (count t (line queues p))) [
      | no empty ↦ omega arith
      | yes some_there ↦
          let (j, there', same, ready) = inv.listed p t h some_there in
          absurd (ground (arith, there, there', ready, blocked))
    ]

    pub count-absent :
        (p t : ℕ) → p < num_queues → m.get tasks t ≡ none → count t (line queues p) ≡ 0
    count-absent p t h absent = ground (arith, count-le p t h)

    -- Which task runs matters for the ready tasks alone.
    pub Placed-runs :
        (runs' : ℕ → Bool)
        → ((t : ℕ) (i : TaskInfo) → m.get tasks t ≡ some i → i.blocked ≡ false → runs t ≡ runs' t)
        → Placed runs' tasks queues map last
    Placed-runs runs' same = record {
      flags = inv.flags;
      listed = inv.listed;
      ranged = inv.ranged;
      turns = λ t i h r. ground (arith, same t i h r, inv.turns t i h r);
      idle = inv.idle;
      known = inv.known;
    }

    pub Placed-last : (last' : ℕ) → last ≤ last' → Placed runs tasks queues map last'
    Placed-last last' h = record {
      flags = inv.flags;
      listed = inv.listed;
      ranged = inv.ranged;
      turns = inv.turns;
      idle = inv.idle;
      known = λ t i e. omega (arith, inv.known t i e);
    }

    -- A new stack pointer in the block of a task changes nothing here.
    pub Placed-stored :
        (t : ℕ) (i : TaskInfo) (sp : ℕ) (tasks' : Tasks)
        → m.get tasks t ≡ some i
        → ((j : ℕ)
            → m.get tasks' j
              ≡ (if t == j then some (record i { stack_pointer = sp }) else m.get tasks j))
        → Placed runs tasks' queues map last
    Placed-stored t i sp tasks' there written = record {
      flags = inv.flags;
      listed =
          λ p a h k. let (j, at, same, free) = inv.listed p a h k in stored-at a j p at same free;
      ranged = λ a j h. ground (arith, written a, inv.ranged a j, at_t a, inv.ranged t i there);
      turns = λ a j h r. ground (arith, written a, inv.turns a j, inv.turns a i, at_t a);
      idle =
          let (j, at, same, free) = inv.idle in stored-at idle_task_id j idle_priority at same free;
      known = λ a j h. ground (arith, written a, inv.known a j, inv.known t i there, eqb→eq t a);
    }
      where
        at_t : (a : ℕ) → (t == a) ≡ true → m.get tasks a ≡ some i
        at_t a e = subst (λ (x : ℕ). m.get tasks x ≡ some i) (eqb→eq t a e) there

        stored-at :
            (a : ℕ) (j : TaskInfo) (p : ℕ)
            → m.get tasks a ≡ some j
            → j.priority ≡ p
            → j.blocked ≡ false
            → (k : TaskInfo) × (m.get tasks' a ≡ some k) × (k.priority ≡ p) × (k.blocked ≡ false)
        stored-at a j p at same free = elim (Bool-cases (t == a)) [
          | inl e ↦ (
            record i { stack_pointer = sp },
            rw (written a, e),
            ground (arith, at_t a e, at, same),
            ground (arith, at_t a e, at, free),
          )
          | inr e ↦ (j, rw (written a, e) at, same, free)
        ]
