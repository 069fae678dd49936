-- ===== src/Scheduler/Invariant/Switching.antt =====
-- `select_task` as a whole, at the state of the program.
use taskette.Base.{
  ℕ, ◌≤◌, ◌≡◌, refl, sym, ◌∙◌, false, some, ◌∷◌, ◌++◌, ◌==◌, if◌then◌else◌, Bool-cases, inl, inr,
}
use taskette.Heapless.{DequeLib, IndexMapLib, BinaryHeapLib}
use taskette.Memory.{Memory}
use taskette.Outcome.{ok, Features}
use taskette.Kernel.{TaskInfo, SchedulerState, World, save}
use taskette.Scheduler.Queues.Effects.{line}
use taskette.Scheduler.Switch.{switch, select_task}
use taskette.Scheduler.Invariant.{Inv}
use taskette.Scheduler.Invariant.Storing.{back, left_at, CanaryOk, Stores, store_original-Stores}
use taskette.Scheduler.Invariant.Choosing.{choose_next-Chooses}

module _ ⦃d : DequeLib⦄ ⦃m : IndexMapLib⦄ where
  -- A switch from `s`, left at `sp`, to `s'`, resumed at `sp'`.
  pub record Switches (s : SchedulerState) (sp : ℕ) (s' : SchedulerState) (sp' : ℕ) : Type 0 where
    pub inv : Inv s'
    pub info : TaskInfo
    -- The task that runs now is ready, and resumes where it was left.
    pub there : m.get s'.tasks s'.current_task ≡ some info
    pub ready : info.blocked ≡ false
    pub resumes : sp' ≡ info.stack_pointer
    -- No ready task has a higher priority.
    pub highest :
        (t : ℕ) (i : TaskInfo)
        → m.get s.tasks t ≡ some i
        → i.blocked ≡ false
        → i.priority ≤ info.priority
    -- It was first in its queue, once the task that ran had gone to the end of its own.
    pub front :
        line s.queues info.priority ++ back s info.priority
        ≡ s'.current_task ∷ line s'.queues info.priority
    pub others :
        (p : ℕ) → (info.priority == p) ≡ false → line s'.queues p ≡ line s.queues p ++ back s p
    -- The task that ran is stored with its stack pointer, and no other block changes.
    pub stored :
        (j : ℕ)
        → m.get s'.tasks j
          ≡ (if s.current_task == j then left_at sp (m.get s.tasks j) else m.get s.tasks j)

  module _ (f : Features) (memory : Memory) (s : SchedulerState) (inv : Inv s) (sp : ℕ) where
    ready-kept :
        (s' : SchedulerState)
        → Stores s sp s'
        → (t : ℕ) (i : TaskInfo) → m.get s.tasks t ≡ some i
        → i.blocked ≡ false
        → (j : TaskInfo) × (m.get s'.tasks t ≡ some j)
          × (j.blocked ≡ false)
          × (j.priority ≡ i.priority)
    ready-kept s' st t i there ready = elim (Bool-cases (s.current_task == t)) [
      | inl e ↦ (record i { stack_pointer = sp }, rw (st.stored t, e, there), ready, refl)
      | inr e ↦ (i, rw (st.stored t, e) there, ready, refl)
    ]

    pub switch-Switches :
        CanaryOk f memory s
        → (sp' : ℕ) × (s' : SchedulerState) × (switch f memory s sp ≡ ok (sp', s'))
          × Switches s sp s' sp'
    unfolding switch
    switch-Switches intact =
        let (s₁, stores, st) = store_original-Stores f memory s inv sp intact in
        let (sp', s', chooses, ch) = choose_next-Chooses f s₁ st.placed in
        (
          sp',
          s',
          rw (stores, chooses),
          record {
            inv = ch.inv;
            info = ch.info;
            there = rw ch.same_tasks ch.there;
            ready = ch.ready;
            resumes = sym ch.resumes;
            highest = λ t i at free.
                let (j, at', free', same) = ready-kept s₁ st t i at free in
                rw (← same) (ch.highest t j at' free');
            front = rw (← st.lines ch.info.priority) ch.front;
            others = λ p h. ch.others p h ∙ st.lines p;
            stored = λ j. rw ch.same_tasks (st.stored j);
          },
        )

module _ ⦃d : DequeLib⦄ ⦃m : IndexMapLib⦄ ⦃h : BinaryHeapLib⦄ where
  -- In a good state, with the canary of the task that ran intact, `select_task` does not panic:
  -- it resumes a ready task of the highest priority, the first of its queue, and leaves a good
  -- state; nothing but the scheduler's state changes.
  pub select_task-Switches :
      (f : Features) (w : World) (s : SchedulerState) (sp : ℕ)
      → w.scheduler_state ≡ some s
      → Inv s
      → CanaryOk f w.memory s
      → (sp' : ℕ) × (s' : SchedulerState) × (select_task f sp w ≡ (ok sp', save w s'))
        × Switches s sp s' sp'
  unfolding select_task
  select_task-Switches f w s sp here inv intact =
      let (sp', s', switches, sw) = switch-Switches f w.memory s inv sp intact in
      (sp', s', rw (here, select_task, switches), sw)
