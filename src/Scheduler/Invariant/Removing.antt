-- ===== src/Scheduler/Invariant/Removing.antt =====
-- `remove_task` takes a task out of the table and out of the queues.
use taskette.Base.{ℕ, ◌<◌, ◌≡◌, ◌≢◌, refl, none, some, ◌==◌, if◌then◌else◌, count, eqb_refl, ◌∙◌}
use taskette.Heapless.{DequeLib, IndexMapLib}
use taskette.Outcome.{ok}
use taskette.Kernel.{TaskInfo, SchedulerState, num_queues, idle_task_id}
use taskette.Scheduler.Queues.Effects.{line}
use taskette.Scheduler.Tasks.{remove_in}
use taskette.Scheduler.Invariant.{Tasks, Inv, count-absent}
use taskette.Scheduler.Invariant.Remove.{Leaves, remove_task_from_queue-Placed}

module _ ⦃d : DequeLib⦄ ⦃m : IndexMapLib⦄ where
  -- `t` is gone from the table and stands in no queue.
  pub record Removes (t : ℕ) (s s' : SchedulerState) : Type 0 where
    pub inv : Inv s'
    pub now : (j : ℕ) → m.get s'.tasks j ≡ (if t == j then none else m.get s.tasks j)
    pub unlisted : (p : ℕ) → p < num_queues → count t (line s'.queues p) ≡ 0
    pub runs : s'.current_task ≡ s.current_task

  module _ (s : SchedulerState) (inv : Inv s) (t : ℕ) where
    removed : Tasks
    removed = (m.remove s.tasks t).1

    removed-get : (j : ℕ) → m.get removed j ≡ (if t == j then none else m.get s.tasks j)
    unfolding removed
    removed-get j = m.get-remove s.tasks t j

    pub remove_in-Removes :
        (i : TaskInfo)
        → m.get s.tasks t ≡ some i
        → t ≢ idle_task_id
        → (s' : SchedulerState) × (remove_in t s ≡ (ok tt, s')) × Removes t s s'
    unfolding remove_in removed
    remove_in-Removes i there not_idle =
        let leaves : Leaves inv.placed t i removed none = record {
          there = there;
          written = removed-get;
          gone = λ j e. cc;
          not_idle = not_idle;
        } in
        let (queues', taken, placed) =
          remove_task_from_queue-Placed inv.placed t i removed none leaves in
        (
          record s { tasks = removed; queues = queues'; priority_map = _ },
          rw (m.remove-value s.tasks t ∙ there, remove_in, taken),
          record {
            inv = record { placed = placed; current = inv.current };
            now = removed-get;
            unlisted = λ p h. count-absent placed p t h (rw (removed-get t, eqb_refl t));
            runs = refl;
          },
        )
