-- ===== src/Program/Ending.antt =====
-- How a call ends: without a panic, in a state of which more is known.
use taskette.Base.{
  ℕ, ◌≡◌, ◌≢◌, refl, ap, sym, subst, ◌∙◌, true, false, none, some, arith, Option-cases, Bool-cases,
  inl, inr,
}
use taskette.Heapless.{DequeLib, IndexMapLib, BinaryHeapLib}
use taskette.Outcome.{Outcome, ok, err, panic, not_initialized}
use taskette.Outcome.Run.{continue, ignore_err}
use taskette.Kernel.{TaskInfo, SchedulerState, Timer, World, save, yield_now}
use taskette.Scheduler.Tasks.{unblock_in, unblock_task, yield_if}
use taskette.Scheduler.Invariant.{Inv}
use taskette.Scheduler.Invariant.Blocking.{Unblocks, unblock_in-absent, unblock_in-ready}
use taskette.Scheduler.Calls.{with_state-run, unblock_task-Unblocks}
use taskette.Memory.{Memory}
use taskette.Program.Keeping.{Keeps}
use taskette.Program.{Settled, Good}

module _ ⦃d : DequeLib⦄ ⦃m : IndexMapLib⦄ ⦃h : BinaryHeapLib⦄ where
  -- A call ends without a panic, in a state of which `P` holds.
  abbrev pub Ends : (World → Type 0) → {A : Type 0} → Outcome A × World → Type 0
  Ends P (r, w) = (r ≢ panic) × P w

  -- A call ends without a panic, in a good state.
  abbrev pub Fine : {A : Type 0} → Outcome A × World → Type 0
  Fine = Ends Good

  -- And the memory, the task that runs and the places of the others are what they were.
  abbrev pub Kept : Memory → SchedulerState → {A : Type 0} → Outcome A × World → Type 0
  Kept memory s = Ends (Keeps memory s)

  pub Kept-Fine :
      {A : Type 0} (memory : Memory) (s : SchedulerState) (p : Outcome A × World)
      → Kept memory s p
      → Fine p
  Kept-Fine memory s (r, w) (no_panic, keeps) = (no_panic, keeps.good)

  -- An `Err` that is thrown away, and a value that is replaced, leave a call fine.
  pub ignored-Ends :
      {A : Type 0} (P : World → Type 0) (w : World) (p : Outcome A × World)
      → Ends P p
      → Ends P (ignore_err (λ _. p) w)
  ignored-Ends P w (ok a, v) (no_panic, good) = ((λ e. cc), good)
  ignored-Ends P w (err x, v) (no_panic, good) = ((λ e. cc), good)
  ignored-Ends P w (panic, v) (no_panic, good) = absurd (no_panic refl)

  pub then-Ends :
      {A : Type 0} (P : World → Type 0) (g : World → World) (p : Outcome A × World)
      → ((v : World) → P v → P (g v))
      → Ends P p
      → Ends P (continue (λ _ v. (ok tt, g v)) p)
  then-Ends P g (ok a, v) keeps (no_panic, good) = ((λ e. cc), keeps v good)
  then-Ends P g (err x, v) keeps (no_panic, good) = ((λ e. cc), good)
  then-Ends P g (panic, v) keeps (no_panic, good) = absurd (no_panic refl)

  module _ (w : World) (s : SchedulerState) (timer : Timer) (here : w.scheduler_state ≡ some s)
      (clock : w.timer ≡ some timer) (inv : Inv s) where
    -- The branches of `unblock_task`.
    pub unblock_task-Ends :
        (P : World → Type 0)
        → Settled s
        → (t : ℕ) → (m.get s.tasks t ≡ none → P (save w s))
        → ((i : TaskInfo) → m.get s.tasks t ≡ some i → i.blocked ≡ false → P (save w s))
        → ((i : TaskInfo) (s' : SchedulerState)
            → m.get s.tasks t ≡ some i
            → i.blocked ≡ true
            → Unblocks t s s'
            → P (yield_now (save w s')))
        → Ends P (unblock_task t w)
    unfolding unblock_task
    unblock_task-Ends P settled t if_absent if_ready if_blocked =
        elim (Option-cases (m.get s.tasks t)) [
          | inl absent ↦
              subst (Ends P)
                (sym (
                  ap (continue yield_if) (
                    with_state-run w s here inv (err not_initialized) (unblock_in t)
                      (unblock_in-absent s t absent))))
                ((λ e. cc), if_absent absent)
          | inr (i, there) ↦ elim (Bool-cases i.blocked) [
            | inr ready ↦
                subst (Ends P)
                  (sym (
                    ap (continue yield_if) (
                      with_state-run w s here inv (err not_initialized) (unblock_in t)
                        (unblock_in-ready s t i there ready))))
                  ((λ e. cc), if_ready i there ready)
            | inl blocked ↦
                let away : s.current_task ≢ t =
                  λ e. ground (arith, settled i (ap (m.get s.tasks) e ∙ there), blocked) in
                let (s', runs, un) = unblock_task-Unblocks w s here inv t i there away blocked in
                subst (Ends P) (sym runs) ((λ e. cc), if_blocked i s' there blocked un)
          ]
        ]
