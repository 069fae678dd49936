-- ===== src/Scheduler/Invariant/Blocking.antt =====
-- `block_task`, `unblock_task` and `remove_task` keep the invariant, and do what they say.
use taskette.Base.{
  ℕ, ◌<◌, ◌≡◌, ◌≢◌, refl, ap, Bool, true, false, none, some, [], ◌∷◌, ◌++◌, arith, ◌==◌,
  if◌then◌else◌, is_some, count, eqb→eq, ne→eqb, eqb_refl,
}
use taskette.Heapless.{DequeLib, IndexMapLib}
use taskette.Outcome.{ok, err, not_found}
use taskette.Kernel.{TaskInfo, SchedulerState, num_queues, idle_task_id}
use taskette.Scheduler.Queues.Effects.{line, Becomes}
use taskette.Scheduler.Tasks.{block_in, unblock_in}
use taskette.Scheduler.Invariant.{Tasks, Inv, Placed-runs, count-blocked}
use taskette.Scheduler.Invariant.Enqueue.{Enters, enqueue_task-Placed}
use taskette.Scheduler.Invariant.Remove.{Leaves, remove_task_from_queue-Placed}

module _ ⦃d : DequeLib⦄ ⦃m : IndexMapLib⦄ where
  -- `t` was ready and is blocked now: its block is marked, and no queue holds it.
  pub record Blocks (t : ℕ) (s s' : SchedulerState) : Type 0 where
    pub inv : Inv s'
    pub info : TaskInfo
    pub was : m.get s.tasks t ≡ some info
    pub now :
        (j : ℕ)
        → m.get s'.tasks j
          ≡ (if t == j then some (record info { blocked = true }) else m.get s.tasks j)
    pub unlisted : (p : ℕ) → p < num_queues → count t (line s'.queues p) ≡ 0
    pub runs : s'.current_task ≡ s.current_task

  -- `t` was blocked and is ready now: it stands at the end of its queue.
  pub record Unblocks (t : ℕ) (s s' : SchedulerState) : Type 0 where
    pub inv : Inv s'
    pub info : TaskInfo
    pub was : m.get s.tasks t ≡ some info
    pub now :
        (j : ℕ)
        → m.get s'.tasks j
          ≡ (if t == j then some (record info { blocked = false }) else m.get s.tasks j)
    pub listed : Becomes s.queues info.priority (line s.queues info.priority ++ t ∷ []) s'.queues
    pub runs : s'.current_task ≡ s.current_task

  -- The branches that change nothing.
  module _ (s : SchedulerState) (t : ℕ) where
    pub block_in-absent : m.get s.tasks t ≡ none → block_in t s ≡ (err not_found, s)
    unfolding block_in
    block_in-absent e = rw (e, block_in)

    pub unblock_in-absent : m.get s.tasks t ≡ none → unblock_in t s ≡ (err not_found, s)
    unfolding unblock_in
    unblock_in-absent e = rw (e, unblock_in)

    pub block_in-blocked :
        (i : TaskInfo) → m.get s.tasks t ≡ some i → i.blocked ≡ true → block_in t s ≡ (ok false, s)
    unfolding block_in
    block_in-blocked i e blocked = rw (e, block_in, blocked)

    pub unblock_in-ready :
        (i : TaskInfo)
        → m.get s.tasks t ≡ some i
        → i.blocked ≡ false
        → unblock_in t s ≡ (ok false, s)
    unfolding unblock_in
    unblock_in-ready i e ready = rw (e, unblock_in, ready)

  module _ (s : SchedulerState) (inv : Inv s) (t : ℕ) (i : TaskInfo)
      (there : m.get s.tasks t ≡ some i) where
    abbrev pub mark : Bool → TaskInfo
    mark b = record i { blocked = b }

    abbrev pub marked : Bool → Tasks
    marked b = m.put s.tasks t (mark b)

    pub marked-get :
        (b : Bool) (j : ℕ)
        → m.get (marked b) j ≡ (if t == j then some (mark b) else m.get s.tasks j)
    marked-get b j = m.get-put s.tasks t j (mark b) (ap (is_some {A = TaskInfo}) there)

    pub block_in-Blocks :
        t ≢ idle_task_id
        → i.blocked ≡ false
        → (s' : SchedulerState) × (block_in t s ≡ (ok true, s')) × Blocks t s s'
    unfolding block_in
    block_in-Blocks not_idle ready =
        let leaves : Leaves inv.placed t i (marked true) (some (mark true)) = record {
          there = there;
          written = marked-get true;
          gone = λ j e. ground arith;
          not_idle = not_idle;
        } in
        let (queues', removed, placed) =
          remove_task_from_queue-Placed inv.placed t i (marked true) (some (mark true)) leaves in
        (
          record s { tasks = marked true; queues = queues'; priority_map = _ },
          rw (there, block_in, ready, removed),
          record {
            inv = record { placed = placed; current = inv.current };
            info = i;
            was = there;
            now = marked-get true;
            unlisted = λ p h.
                count-blocked placed p t (mark true) h (rw (marked-get true t, eqb_refl t)) refl;
            runs = refl;
          },
        )

    -- The idle task is never blocked.
    not_idle : i.blocked ≡ true → t ≢ idle_task_id
    not_idle blocked e =
        let (j, at, same, free) = inv.placed.idle in
        ground (arith, there, blocked, at, free, ap (m.get s.tasks) e)

    pub unblock-Enters :
        i.blocked ≡ true → Enters inv.placed t (mark false) (marked false) s.last_task_id
    unblock-Enters blocked = record {
      written = marked-get false;
      ready = refl;
      in_range = inv.placed.ranged t i there;
      alone = λ p h k. absurd (omega (arith, count-blocked inv.placed p t i h there blocked));
      before = ground (
        arith,
        count-blocked inv.placed i.priority t i (inv.placed.ranged t i there) there blocked,
        not_idle blocked,
      );
      idle_first = λ e. absurd (not_idle blocked e);
      grows = omega arith;
      within = inv.placed.known t i there;
    }

    pub unblock_in-Unblocks :
        s.current_task ≢ t
        → i.blocked ≡ true
        → (s' : SchedulerState) × (unblock_in t s ≡ (ok true, s')) × Unblocks t s s'
    unfolding unblock_in
    unblock_in-Unblocks away blocked =
        let (queues', entered, becomes, placed) =
          enqueue_task-Placed inv.placed t (mark false) (marked false) s.last_task_id
            (unblock-Enters blocked) in
        (
          record s { tasks = marked false; queues = queues'; priority_map = _ },
          rw (there, unblock_in, blocked, entered),
          record {
            inv = record {
              placed =
                  Placed-runs placed (λ j. s.current_task == j)
                    (λ j k h r. ground (arith, eqb→eq t j, ne→eqb s.current_task j));
              current = inv.current;
            };
            info = i;
            was = there;
            now = marked-get false;
            listed = becomes;
            runs = refl;
          },
        )
