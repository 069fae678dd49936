-- ===== src/Scheduler/Invariant/Overflow.antt =====
-- A stack that has overflowed is found at the next switch.
use taskette.Base.{
  arith, ℕ, ◌<◌, ◌≡◌, refl, true, false, some, ◌⊎◌, inl, inr, Bool-cases, Option, none, ap, ◌∙◌,
}
use taskette.Heapless.{DequeLib, IndexMapLib, BinaryHeapLib}
use taskette.Memory.{Memory}
use taskette.Outcome.{Outcome, ok, panic, Features}
use taskette.Kernel.{TaskInfo, SchedulerState, World, save}
use taskette.Scheduler.Canary.{check_stack_canary}
use taskette.Scheduler.Canary.Detection.{Intact, check-fill_iff}
use taskette.Scheduler.Switch.{requeue, store_original, switch, switched, select_task}
use taskette.Scheduler.Invariant.{Inv}
use taskette.Scheduler.Invariant.Storing.{CanaryOkOf}
use taskette.Scheduler.Invariant.Switching.{Switches, select_task-Switches}

module _ ⦃d : DequeLib⦄ ⦃m : IndexMapLib⦄ ⦃h : BinaryHeapLib⦄ where
  switch-broken :
      (f : Features) (memory : Memory) (s : SchedulerState) (i : TaskInfo) (sp : ℕ)
      → m.get s.tasks s.current_task ≡ some i
      → i.blocked ≡ false
      → f.stack_canary ≡ true
      → check_stack_canary memory i.stack_limit ≡ true
      → switch f memory s sp ≡ panic
  unfolding switch
  switch-broken f memory s i sp there ready checked broken = rw stops refl
    where
      stops : store_original f memory s sp ≡ panic
      stops = rw (there, store_original, ready, checked, broken, requeue)

  abbrev selected : Features → World → ℕ → Option SchedulerState → Outcome ℕ × World
  selected f w sp none = (panic, w)
  selected f w sp (some s) = switched w (switch f w.memory s sp)

  -- In a good state, with the canary in use, the task that runs ready, and a memory of bytes; with
  -- `filled` the memory at the `fill_stack_canary` of that task's stack:
  -- Either the sixteen bytes at the bottom of the stack are as `fill_stack_canary` left them, and
  -- `select_task` switches to a ready task of the highest priority; or one of them has changed,
  -- and `select_task` panics.
  pub select_task_overflow :
      (f : Features) (w : World) (s : SchedulerState) (i : TaskInfo) (filled : Memory) (sp : ℕ)
      → w.scheduler_state ≡ some s
      → Inv s
      → m.get s.tasks s.current_task ≡ some i
      → i.blocked ≡ false
      → f.stack_canary ≡ true
      → ((b : ℕ) → w.memory b < 256)
      → (Intact filled w.memory i.stack_limit
          × ((sp' : ℕ) × (s' : SchedulerState) × (select_task f sp w ≡ (ok sp', save w s'))
              × Switches s sp s' sp'))
        ⊎ ((¬ Intact filled w.memory i.stack_limit) × (select_task f sp w ≡ (panic, w)))
  unfolding select_task
  select_task_overflow f w s i filled sp here inv there ready checked are_bytes =
      let whole = check-fill_iff filled w.memory i.stack_limit are_bytes in
      elim (Bool-cases (check_stack_canary w.memory i.stack_limit)) [
        | inr passes ↦ inl (
          whole.0 passes,
          select_task-Switches f w s sp here inv
              (rw (there, CanaryOkOf) (λ awake. rw (checked, passes) refl)),
        )
        | inl broken ↦ inr (
          (λ intact. absurd (ground (arith, broken, whole.1 intact))),
          ap (selected f w sp) here
              ∙ ap (switched w) (switch-broken f w.memory s i sp there ready checked broken),
        )
      ]
