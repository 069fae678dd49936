-- ===== src/Futex/Waits.antt =====
-- What `wait` does on each branch.
use taskette.Base.{
  ℕ, ◌<◌, ◌≡◌, ◌≢◌, refl, ap, ◌∙◌, false, Option, some, [], ◌∷◌, ◌++◌, ne→eqb, eq→eqb, eqb_refl,
  length,
}
use taskette.Heapless.{DequeLib, IndexMapLib, BinaryHeapLib}
use taskette.Outcome.{Outcome, ok, err, not_initialized}
use taskette.Outcome.Run.{continue}
use taskette.Kernel.{TaskInfo, SchedulerState, World, save, yield_now, idle_task_id, max_num_tasks}
use taskette.Scheduler.Tasks.{enter, current_task_id, block_task}
use taskette.Scheduler.Invariant.{Inv}
use taskette.Scheduler.Invariant.Blocking.{Blocks}
use taskette.Scheduler.Calls.{block_task-Blocks}
use taskette.Futex.{Futex, Shared, add_waiter, on_world, park, wait_slow, wait}

module _ ⦃d : DequeLib⦄ ⦃m : IndexMapLib⦄ ⦃h : BinaryHeapLib⦄ where
  pub wait_changed :
      (between : Shared → Shared) (v : ℕ) (x : Shared)
      → x.futex.value ≡ v
      → (between x).futex.value ≢ v
      → wait between v x ≡ (ok tt, between x)
  unfolding wait wait_slow
  wait_changed between v x same changed =
      rw (eq→eqb x.futex.value v same, ne→eqb (between x).futex.value v changed)

  pub wait_fast :
      (between : Shared → Shared) (v : ℕ) (x : Shared)
      → x.futex.value ≢ v
      → wait between v x ≡ (ok tt, x)
  unfolding wait
  wait_fast between v x other = rw (ne→eqb x.futex.value v other)

  park-run :
      (x : Shared) (id : ℕ) (q : d.Deque max_num_tasks) {r : Outcome (Unit {0}) × World}
      → d.push_back x.futex.waiting_tasks id ≡ some q
      → block_task id x.world ≡ r
      → park id x ≡ (r.0, record { futex = record (x.futex) { waiting_tasks = q }; world = r.1 })
  unfolding park
  park-run x id q pushed runs = ap added_to added ∙ ap blocked_to runs
    where
      added : add_waiter id x.futex ≡ (ok tt, record (x.futex) { waiting_tasks = q })
      added = unfold add_waiter in rw (pushed, add_waiter)

      added_to : Outcome (Unit {0}) × Futex → Outcome (Unit {0}) × Shared
      added_to (r, y) = continue (λ _. on_world (block_task id)) (r, record x { futex = y })

      blocked_to : Outcome (Unit {0}) × World → Outcome (Unit {0}) × Shared
      blocked_to (r, w) = (r, record { futex = record (x.futex) { waiting_tasks = q }; world = w })

  module _ (x : Shared) (s : SchedulerState) (here : x.world.scheduler_state ≡ some s) where
    asked : on_world current_task_id x ≡ (ok s.current_task, record x { world = save (x.world) s })
    unfolding current_task_id
    asked = ap asked_of here
      where
        asked_of : Option SchedulerState → Outcome ℕ × Shared
        asked_of o =
            let (r, w) =
              enter (err not_initialized) (λ (t : SchedulerState). (ok t.current_task, t)) x.world
                o in
            (r, record x { world = w })

    -- In a good state where the task that runs is ready and not the idle task, and the wait queue
    -- has room:
    -- With the value unchanged the task that runs goes to the end of the wait queue, is blocked,
    -- and a switch is requested.
    pub wait_slow-Blocks :
        (i : TaskInfo)
        → Inv s
        → m.get s.tasks s.current_task ≡ some i
        → i.blocked ≡ false
        → s.current_task ≢ idle_task_id
        → length (d.items x.futex.waiting_tasks) < max_num_tasks
        → (q : d.Deque max_num_tasks) × (s' : SchedulerState) × (wait_slow x.futex.value x ≡ (
          ok tt,
          record {
            futex = record (x.futex) { waiting_tasks = q };
            world = yield_now (save x.world s');
          },
        ))
          × (d.items q ≡ d.items x.futex.waiting_tasks ++ s.current_task ∷ [])
          × Blocks s.current_task s s'
    unfolding wait_slow
    wait_slow-Blocks i inv there ready not_idle room =
        let (q, pushed, items) = d.push_back-room x.futex.waiting_tasks s.current_task room in
        let (s', runs, blocks) =
          block_task-Blocks (save (x.world) s) s refl inv s.current_task i there not_idle ready in
        (
          q,
          s',
          rw (eqb_refl x.futex.value) (
              ap (continue park) asked
              ∙ park-run (record x { world = save (x.world) s }) s.current_task q pushed runs),
          items,
          blocks,
        )
