-- ===== src/Scheduler/Calls.antt =====
-- The calls of the scheduler at the state of the program: every branch of each, in a good state.
pub mod Spawn
use taskette.Base.{
  ℕ, suc, ◌^◌, ◌≤◌, ◌<◌, ◌≡◌, ◌≢◌, refl, ap, Bool, true, false, none, some, List, arith,
  if◌then◌else◌, le→ltb, lt→ltb, ◌∙◌, length, Option-cases, Bool-cases, ◌⊎◌, inl, inr,
}
use taskette.Heapless.{DequeLib, IndexMapLib, BinaryHeapLib}
use taskette.Memory.{Memory}
use taskette.Outcome.{
  Outcome, ok, err, panic, Features, task_full, not_found, not_initialized, invalid_priority,
}
use taskette.Outcome.Run.{M, expect, continue}
use taskette.Kernel.{
  TaskInfo, SchedulerState, World, save, yield_now, max_priority, max_num_tasks, idle_task_id,
  usize_bits,
}
use taskette.Scheduler.Canary.{fill_stack_canary}
use taskette.Scheduler.Tasks.{
  Arch, StackRange, block_in, unblock_in, register_task, block_task, unblock_task, remove_task,
  saved, enter, with_state, yield_if, finish_task, spawn, preempt,
}
use taskette.Scheduler.Invariant.{Inv}
use taskette.Scheduler.Invariant.Blocking.{
  Blocks, Unblocks, block_in-Blocks, unblock_in-Unblocks, block_in-absent, unblock_in-absent,
  block_in-blocked, unblock_in-ready,
}
use taskette.Scheduler.Invariant.Removing.{Removes, remove_in-Removes}
use taskette.Scheduler.Invariant.Spawning.{Registers, register_task-Registers, register_task-full}

module _ ⦃d : DequeLib⦄ ⦃m : IndexMapLib⦄ ⦃h : BinaryHeapLib⦄ where
  module _ (w : World) (s : SchedulerState) (here : w.scheduler_state ≡ some s) (inv : Inv s) where
    pub with_state-run :
        {A : Type 0} (absent : Outcome A) (body : M SchedulerState A)
        {r : Outcome A × SchedulerState}
        → body s ≡ r
        → with_state absent body w ≡ saved w r
    with_state-run absent body e = ap (enter absent body w) here ∙ ap (saved w) e

    pub block_task-Blocks :
        (t : ℕ) (i : TaskInfo)
        → m.get s.tasks t ≡ some i
        → t ≢ idle_task_id
        → i.blocked ≡ false
        → (s' : SchedulerState) × (block_task t w ≡ (ok tt, yield_now (save w s'))) × Blocks t s s'
    unfolding block_task
    block_task-Blocks t i there not_idle ready =
        let (s', runs, blocks) = block_in-Blocks s inv t i there not_idle ready in
        (
          s',
          ap (continue yield_if) (with_state-run (err not_initialized) (block_in t) runs),
          blocks,
        )

    pub unblock_task-Unblocks :
        (t : ℕ) (i : TaskInfo)
        → m.get s.tasks t ≡ some i
        → s.current_task ≢ t
        → i.blocked ≡ true
        → (s' : SchedulerState) × (unblock_task t w ≡ (ok tt, yield_now (save w s')))
          × Unblocks t s s'
    unfolding unblock_task
    unblock_task-Unblocks t i there away blocked =
        let (s', runs, unblocks) = unblock_in-Unblocks s inv t i there away blocked in
        (
          s',
          ap (continue yield_if) (with_state-run (err not_initialized) (unblock_in t) runs),
          unblocks,
        )

    -- In a good state, and for a task other than the idle one:
    -- An unknown task is refused; a blocked one stays blocked, and no switch is requested; a ready
    -- one is blocked, and a switch is requested.
    pub block_task-cases :
        (t : ℕ)
        → t ≢ idle_task_id
        → ((m.get s.tasks t ≡ none) × (block_task t w ≡ (err not_found, save w s)))
          ⊎ ((i : TaskInfo) × (m.get s.tasks t ≡ some i)
              × (i.blocked ≡ true)
              × (block_task t w ≡ (ok tt, save w s)))
          ⊎ ((i : TaskInfo) × (m.get s.tasks t ≡ some i)
              × (i.blocked ≡ false)
              × ((s' : SchedulerState) × (block_task t w ≡ (ok tt, yield_now (save w s')))
                  × Blocks t s s'))
    unfolding block_task
    block_task-cases t not_idle = elim (Option-cases (m.get s.tasks t)) [
      | inl absent ↦ inl (
        absent,
        ap (continue yield_if)
            (with_state-run (err not_initialized) (block_in t) (block_in-absent s t absent)),
      )
      | inr (i, there) ↦ elim (Bool-cases i.blocked) [
        | inl blocked ↦ inr (
            inl (
              i,
              there,
              blocked,
              ap (continue yield_if) (
                  with_state-run (err not_initialized) (block_in t)
                    (block_in-blocked s t i there blocked)),
            ))
        | inr ready ↦ inr (inr (i, there, ready, block_task-Blocks t i there not_idle ready))
      ]
    ]

    -- In a good state, and for a task that does not run:
    -- An unknown task is refused; a ready one stays as it is, and no switch is requested; a
    -- blocked one that does not run is ready afterwards, and a switch is requested.
    pub unblock_task-cases :
        (t : ℕ)
        → s.current_task ≢ t
        → ((m.get s.tasks t ≡ none) × (unblock_task t w ≡ (err not_found, save w s)))
          ⊎ ((i : TaskInfo) × (m.get s.tasks t ≡ some i)
              × (i.blocked ≡ false)
              × (unblock_task t w ≡ (ok tt, save w s)))
          ⊎ ((s' : SchedulerState) × (unblock_task t w ≡ (ok tt, yield_now (save w s')))
              × Unblocks t s s')
    unfolding unblock_task
    unblock_task-cases t away = elim (Option-cases (m.get s.tasks t)) [
      | inl absent ↦ inl (
        absent,
        ap (continue yield_if)
            (with_state-run (err not_initialized) (unblock_in t) (unblock_in-absent s t absent)),
      )
      | inr (i, there) ↦ elim (Bool-cases i.blocked) [
        | inr ready ↦ inr (
            inl (
              i,
              there,
              ready,
              ap (continue yield_if) (
                  with_state-run (err not_initialized) (unblock_in t)
                    (unblock_in-ready s t i there ready)),
            ))
        | inl blocked ↦ inr (inr (unblock_task-Unblocks t i there away blocked))
      ]
    ]

    -- In a good state:
    -- When the function of a task other than the idle one has returned, the task is removed; its
    -- end does not panic.
    pub finish_task-Removes :
        (i : TaskInfo)
        → m.get s.tasks s.current_task ≡ some i
        → s.current_task ≢ idle_task_id
        → (s' : SchedulerState) × (finish_task w ≡ (ok tt, save w s')) × Removes s.current_task s s'
    unfolding finish_task
    finish_task-Removes i there not_idle =
        let (s', runs, removes) = remove_in-Removes s inv s.current_task i there not_idle in
        (
          s',
          ap (continue (λ id. expect (remove_task id)))
                (with_state-run panic (λ (t : SchedulerState). (ok t.current_task, t)) refl)
              ∙ ap
                  (λ (r : Outcome (Unit {0}) × SchedulerState).
                    expect (λ (_ : World). saved (save w s) r) (save w s))
                  runs,
          removes,
        )
