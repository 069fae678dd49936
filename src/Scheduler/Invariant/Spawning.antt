-- ===== src/Scheduler/Invariant/Spawning.antt =====
-- The critical section of `spawn`.
use taskette.Base.{
  ℕ, suc, ◌-◌, ◌^◌, ◌<◌, ◌≡◌, refl, ap, ◌∙◌, false, none, some, [], ◌∷◌, ◌++◌, arith, ◌==◌,
  if◌then◌else◌, length, Option-cases, inl, inr, eqb→eq, ne→eqb,
}
use taskette.Heapless.{DequeLib, IndexMapLib}
use taskette.Outcome.{ok, err, task_full}
use taskette.Kernel.{TaskInfo, SchedulerState, num_queues, max_num_tasks, usize_bits}
use taskette.Scheduler.Queues.Effects.{line, Becomes}
use taskette.Scheduler.Tasks.{next_task_id, register_as, register_task}
use taskette.Scheduler.Invariant.{Tasks, Inv, Placed-runs, Placed-last, count-absent}
use taskette.Scheduler.Invariant.Enqueue.{Enters, enqueue_task-Placed}

-- Until the counter wraps, a new task has the id after the last.
next_task_id-suc : (last : ℕ) → suc last < 2 ^ usize_bits → next_task_id last ≡ suc last
unfolding next_task_id
next_task_id-suc last h = ground arith

-- After the wrap the id of the idle task is skipped.
pub next_task_id-wraps : next_task_id (2 ^ usize_bits - 1) ≡ 1
unfolding next_task_id
next_task_id-wraps = refl

module _ ⦃d : DequeLib⦄ ⦃m : IndexMapLib⦄ where
  -- Task `t` is new, with block `i`, and stands at the end of its queue.
  pub record Registers (t : ℕ) (i : TaskInfo) (s s' : SchedulerState) : Type 0 where
    pub inv : Inv s'
    pub fresh : m.get s.tasks t ≡ none
    pub now : (j : ℕ) → m.get s'.tasks j ≡ (if t == j then some i else m.get s.tasks j)
    pub listed : Becomes s.queues i.priority (line s.queues i.priority ++ t ∷ []) s'.queues
    pub runs : s'.current_task ≡ s.current_task
    pub last : s'.last_task_id ≡ t
    pub started : s'.started ≡ s.started

  module _ (s : SchedulerState) (inv : Inv s) (i : TaskInfo)
      (unwrapped : suc s.last_task_id < 2 ^ usize_bits) where
    abbrev t : ℕ
    t = suc s.last_task_id

    fresh : m.get s.tasks t ≡ none
    fresh = elim (Option-cases (m.get s.tasks t)) [
      | inl absent ↦ absent
      | inr (j, there) ↦ absurd (omega (arith, inv.placed.known t j there))
    ]

    new-Enters :
        (tasks' : Tasks)
        → ((j : ℕ) → m.get tasks' j ≡ (if t == j then some i else m.get s.tasks j))
        → i.blocked ≡ false
        → i.priority < num_queues
        → Enters inv.placed t i tasks' t
    new-Enters tasks' written ready small = record {
      written = written;
      ready = ready;
      in_range = small;
      alone = λ p h k. absurd (omega (arith, count-absent inv.placed p t h fresh));
      before = ground (arith, count-absent inv.placed i.priority t small fresh);
      idle_first = λ e. absurd (omega arith);
      grows = omega arith;
      within = omega arith;
    }

    register_task-as : register_task i s ≡ register_as t i s
    unfolding register_task
    register_task-as =
        ap (λ (id : ℕ). register_as id i s) (next_task_id-suc s.last_task_id unwrapped)

    pub register_task-Registers :
        i.blocked ≡ false
        → i.priority < num_queues
        → length (m.keys s.tasks) < max_num_tasks
        → (s' : SchedulerState) × (register_task i s ≡ (ok t, s')) × Registers t i s s'
    unfolding register_as
    register_task-Registers ready small space =
        let (tasks', inserted, written) = m.insert-room s.tasks t i space in
        let (queues', entered, becomes, placed) =
          enqueue_task-Placed inv.placed t i tasks' t (new-Enters tasks' written ready small) in
        (
          record s { tasks = tasks'; last_task_id = t; queues = queues'; priority_map = _ },
          register_task-as ∙ rw (inserted, register_as, entered),
          record {
            inv = record {
              placed =
                  Placed-runs placed (λ j. s.current_task == j)
                    (λ j k h r. ground (arith, eqb→eq t j, ne→eqb s.current_task j, inv.current));
              current = omega (arith, inv.current);
            };
            fresh = fresh;
            now = written;
            listed = becomes;
            runs = refl;
            last = refl;
            started = refl;
          },
        )

    -- With sixteen tasks there is no room: only the counter moves, and the invariant holds.
    pub register_task-full :
        length (m.keys s.tasks) ≡ max_num_tasks
        → (s' : SchedulerState) × (register_task i s ≡ (err task_full, s'))
          × Inv s'
          × (s'.tasks ≡ s.tasks)
          × (s'.queues ≡ s.queues)
    unfolding register_as
    register_task-full full = (
      record s { last_task_id = t },
      register_task-as ∙ rw (m.insert-full s.tasks t i full fresh, register_as),
      record {
        placed = Placed-last inv.placed t (omega arith);
        current = omega (arith, inv.current);
      },
      refl,
      refl,
    )
