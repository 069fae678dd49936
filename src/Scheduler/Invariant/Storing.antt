-- ===== src/Scheduler/Invariant/Storing.antt =====
-- The first half of `select_task`: the task that ran goes back to the end of its queue.
use taskette.Base.{
  ℕ, ◌≡◌, refl, ap, true, false, ◌&&◌, Option, none, some, List, [], ◌∷◌, ◌++◌, arith, ◌==◌,
  if◌then◌else◌, is_some, sym, subst, Option-cases, Bool-cases, inl, inr, eqb→eq, eqb_refl,
}
use mathlib.Core.List.{append-nil}
use taskette.Heapless.{DequeLib, IndexMapLib}
use taskette.Memory.{Memory}
use taskette.Outcome.{ok, Features}
use taskette.Kernel.{TaskInfo, SchedulerState, Queues}
use taskette.Scheduler.Canary.{check_stack_canary}
use taskette.Scheduler.Queues.{enqueue_task}
use taskette.Scheduler.Queues.Effects.{line, Becomes}
use taskette.Scheduler.Switch.{requeue, store_original}
use taskette.Scheduler.Invariant.{Tasks, Placed, Inv, Placed-runs, Placed-stored}
use taskette.Scheduler.Invariant.Enqueue.{Enters, enqueue_task-Placed}

module _ ⦃d : DequeLib⦄ ⦃m : IndexMapLib⦄ where
  -- The task that ran, where it goes back to queue `p`.
  abbrev pub back_of : ℕ → ℕ → Option TaskInfo → List ℕ
  back_of t p none = []
  back_of t p (some i) = if i.blocked then [] else if i.priority == p then t ∷ [] else []

  abbrev pub back : SchedulerState → ℕ → List ℕ
  back s p = back_of s.current_task p (m.get s.tasks s.current_task)

  -- A control block with the stack pointer at which its task was left.
  abbrev pub left_at : ℕ → Option TaskInfo → Option TaskInfo
  left_at sp none = none
  left_at sp (some i) = some (record i { stack_pointer = sp })

  -- The canary of the task that ran is intact, where it is looked at.
  abbrev pub CanaryOkOf : Features → Memory → Option TaskInfo → Type 0
  CanaryOkOf f memory none = Unit {0}
  CanaryOkOf f memory (some i) =
      i.blocked ≡ false → (f.stack_canary && check_stack_canary memory i.stack_limit) ≡ false

  abbrev pub CanaryOk : Features → Memory → SchedulerState → Type 0
  CanaryOk f memory s = CanaryOkOf f memory (m.get s.tasks s.current_task)

  pub record Stores (s : SchedulerState) (sp : ℕ) (s' : SchedulerState) : Type 0 where
    pub placed : Placed (λ _. false) s'.tasks s'.queues s'.priority_map s'.last_task_id
    pub stored :
        (j : ℕ)
        → m.get s'.tasks j
          ≡ (if s.current_task == j then left_at sp (m.get s.tasks j) else m.get s.tasks j)
    pub lines : (p : ℕ) → line s'.queues p ≡ line s.queues p ++ back s p
    pub same_current : s'.current_task ≡ s.current_task
    pub same_last : s'.last_task_id ≡ s.last_task_id

  module _ (f : Features) (memory : Memory) (s : SchedulerState) (inv : Inv s) (sp : ℕ) where
    at_current :
        (j : ℕ) → (s.current_task == j) ≡ true → m.get s.tasks s.current_task ≡ m.get s.tasks j
    at_current j e = ap (m.get s.tasks) (eqb→eq s.current_task j e)

    Stores-gone : m.get s.tasks s.current_task ≡ none → Stores s sp s
    Stores-gone gone = record {
      placed =
          Placed-runs inv.placed (λ _. false) (λ t i h r. ground (arith, at_current t, gone, h));
      stored = λ j. ground (arith, at_current j, gone);
      lines = λ p. rw gone (sym (append-nil (line s.queues p)));
      same_current = refl;
      same_last = refl;
    }

    module _ (i : TaskInfo) (there : m.get s.tasks s.current_task ≡ some i) where
      left : TaskInfo
      left = record i { stack_pointer = sp }

      tasks' : Tasks
      unfolding left
      tasks' = m.put s.tasks s.current_task left

      left-get :
          (j : ℕ) → m.get tasks' j ≡ (if s.current_task == j then some left else m.get s.tasks j)
      unfolding tasks'
      left-get j = m.get-put s.tasks s.current_task j left (ap (is_some {A = TaskInfo}) there)

      left-stored :
          (j : ℕ)
          → m.get tasks' j
            ≡ (if s.current_task == j then left_at sp (m.get s.tasks j) else m.get s.tasks j)
      unfolding left
      left-stored j = ground (arith, left-get j, at_current j, there)

      requeue-blocked : i.blocked ≡ true → requeue f memory s i ≡ ok (s.queues, s.priority_map)
      unfolding requeue
      requeue-blocked blocked = rw blocked

      requeue-ready :
          {r : Queues × ℕ}
          → i.blocked ≡ false
          → (f.stack_canary && check_stack_canary memory i.stack_limit) ≡ false
          → enqueue_task s.queues s.priority_map s.current_task i.priority ≡ ok r
          → requeue f memory s i ≡ ok r
      unfolding requeue
      requeue-ready ready intact entered = rw (ready, intact, entered)

      back-lines :
          (queues' : Queues)
          → i.blocked ≡ false
          → Becomes s.queues i.priority (line s.queues i.priority ++ s.current_task ∷ []) queues'
          → (p : ℕ) → line queues' p ≡ line s.queues p ++ back s p
      back-lines queues' ready becomes p = elim (Bool-cases (i.priority == p)) [
        | inl here ↦
            rw (becomes p, there, ready, here)
              (ap (λ (q : ℕ). line s.queues q ++ s.current_task ∷ []) (eqb→eq i.priority p here))
        | inr other ↦ rw (becomes p, there, ready, other) (sym (append-nil (line s.queues p)))
      ]

      Stores-blocked :
          i.blocked ≡ true
          → (s' : SchedulerState) × (store_original f memory s sp ≡ ok s') × Stores s sp s'
      unfolding store_original tasks' left
      Stores-blocked blocked = (
        record s { tasks = tasks' },
        rw (there, store_original, requeue-blocked blocked),
        record {
          placed =
              Placed-stored
                (Placed-runs inv.placed (λ _. false)
                  (λ t j h r. ground (arith, at_current t, there, blocked, h)))
                s.current_task i sp tasks' there left-get;
          stored = left-stored;
          lines = λ p. rw (there, blocked) (sym (append-nil (line s.queues p)));
          same_current = refl;
          same_last = refl;
        },
      )

      current-Enters :
          i.blocked ≡ false → Enters inv.placed s.current_task left tasks' s.last_task_id
      unfolding left
      current-Enters ready = record {
        written = left-get;
        ready = ready;
        in_range = inv.placed.ranged s.current_task i there;
        alone = λ p h k.
            let (j, at, same, free) = inv.placed.listed p s.current_task h k in
            ground (arith, at, there, same);
        before =
            ground (arith, inv.placed.turns s.current_task i there ready, eqb_refl s.current_task);
        idle_first = λ e.
            let (j, at, same, free) = inv.placed.idle in
            ground (arith, at, there, same, ap (m.get s.tasks) e);
        grows = omega arith;
        within = inv.current;
      }

      Stores-ready :
          i.blocked ≡ false
          → (f.stack_canary && check_stack_canary memory i.stack_limit) ≡ false
          → (s' : SchedulerState) × (store_original f memory s sp ≡ ok s') × Stores s sp s'
      unfolding store_original tasks' left
      Stores-ready ready intact =
          let (queues', entered, becomes, placed) =
            enqueue_task-Placed inv.placed s.current_task left tasks' s.last_task_id
              (current-Enters ready) in
          (
            record s { tasks = tasks'; queues = queues'; priority_map = _ },
            rw (there, store_original, requeue-ready ready intact entered),
            record {
              placed = Placed-runs placed (λ _. false) (λ t j h r. ground arith);
              stored = left-stored;
              lines = back-lines queues' ready becomes;
              same_current = refl;
              same_last = refl;
            },
          )

    pub store_original-Stores :
        CanaryOk f memory s
        → (s' : SchedulerState) × (store_original f memory s sp ≡ ok s') × Stores s sp s'
    unfolding store_original
    store_original-Stores intact = elim (Option-cases (m.get s.tasks s.current_task)) [
      | inl gone ↦ (s, rw (gone, store_original), Stores-gone gone)
      | inr (i, there) ↦ elim (Bool-cases i.blocked) [
        | inl blocked ↦ Stores-blocked i there blocked
        | inr ready ↦ Stores-ready i there ready (subst (CanaryOkOf f memory) there intact ready)
      ]
    ]
