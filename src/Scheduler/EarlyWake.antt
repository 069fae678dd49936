-- ===== src/Scheduler/EarlyWake.antt =====
-- A task that has blocked itself and is woken before the requested switch: it is put into its queue
-- while it runs, so that the next switch puts it there a second time.
use Prim.Native.Nat.{bit_or}
use taskette.Base.{
  ℕ, ◌+◌, ◌<◌, ◌^◌, ◌≡◌, ◌≢◌, refl, ap, sym, ◌∙◌, true, false, some, arith, ◌==◌, if◌then◌else◌,
  bit, count, eqb_refl, some-inj, eq→eqb,
}
use taskette.Heapless.{DequeLib, IndexMapLib}
use taskette.Outcome.{ok}
use taskette.Kernel.{TaskInfo, SchedulerState, idle_task_id}
use taskette.Scheduler.Queues.Effects.{line}
use taskette.Scheduler.Tasks.{block_in, unblock_in}
use taskette.Scheduler.Invariant.{Inv}
use taskette.Scheduler.Invariant.Enqueue.{enqueue_task-Placed}
use taskette.Scheduler.Invariant.Blocking.{
  block_in-Blocks, mark, marked, marked-get, unblock-Enters,
}

module _ ⦃d : DequeLib⦄ ⦃m : IndexMapLib⦄ where
  -- `unblock_task` on the blocked task that still runs.
  unblock_running :
      (s : SchedulerState)
      → Inv s
      → (t : ℕ) → s.current_task ≡ t
      → (i : TaskInfo) → m.get s.tasks t ≡ some i
      → i.blocked ≡ true
      → (s' : SchedulerState) × (unblock_in t s ≡ (ok true, s'))
        × (s'.current_task ≡ t)
        × (m.get s'.tasks t ≡ some (record i { blocked = false }))
        × (count t (line s'.queues i.priority) ≡ 1 + bit (t == idle_task_id))
  unfolding unblock_in
  unblock_running s inv t runs i there blocked =
      let enters = unblock-Enters s inv t i there blocked in
      let (queues', entered, becomes, placed) =
        enqueue_task-Placed inv.placed t (mark s inv t i there false) (marked s inv t i there false)
          s.last_task_id enters in
      let now : m.get (marked s inv t i there false) t ≡ some (record i { blocked = false }) =
        rw (marked-get s inv t i there false t, eqb_refl t) in
      (
        record s {
          tasks = marked s inv t i there false;
          queues = queues';
          priority_map = bit_or s.priority_map (2 ^ i.priority);
        },
        rw (there, unblock_in, blocked, entered),
        runs,
        now,
        (let turn : count t (line queues' i.priority)
                  + bit (if t == t then false else s.current_task == t)
                ≡ 1 + bit (t == idle_task_id) =
              placed.turns t (mark s inv t i there false) now refl in
            ground (arith, eqb_refl t, turn)),
      )

  -- A ready task that runs is blocked and woken again before the switch: it stands in its queue
  -- although it runs, and the invariant is broken.
  pub early_wake :
      (s : SchedulerState) (i : TaskInfo)
      → Inv s
      → m.get s.tasks s.current_task ≡ some i
      → i.blocked ≡ false
      → s.current_task ≢ idle_task_id
      → (s₁ s₂ : SchedulerState) × (block_in s.current_task s ≡ (ok true, s₁))
        × (unblock_in s.current_task s₁ ≡ (ok true, s₂))
        × (s₂.current_task ≡ s.current_task)
        × (0 < count s.current_task (line s₂.queues i.priority))
        × ¬ Inv s₂
  early_wake s i inv there ready not_idle =
      let (s₁, blocked, bl) = block_in-Blocks s inv s.current_task i there not_idle ready in
      let there₁ : m.get s₁.tasks s.current_task ≡ some (record (bl.info) { blocked = true }) =
        rw (bl.now s.current_task, eqb_refl s.current_task) in
      let same : bl.info ≡ i = some-inj bl.info i (sym bl.was ∙ there) in
      let (s₂, woken, runs', now, stands) =
        unblock_running s₁ bl.inv s.current_task bl.runs (record (bl.info) { blocked = true })
          there₁ refl in
      let stands_i : count s.current_task (line s₂.queues i.priority)
          ≡ 1 + bit (s.current_task == idle_task_id) =
        ap (λ (k : TaskInfo). count s.current_task (line s₂.queues k.priority)) (sym same)
        ∙ stands in
      (
        s₁,
        s₂,
        blocked,
        woken,
        runs',
        omega (arith, stands_i),
        λ good.
            let turn : count s.current_task (line s₂.queues bl.info.priority)
                  + bit (s₂.current_task == s.current_task)
                ≡ 1 + bit (s.current_task == idle_task_id) =
              good.placed.turns s.current_task (record (bl.info) { blocked = false }) now refl in
            let here : (s₂.current_task == s.current_task) ≡ true =
              eq→eqb s₂.current_task s.current_task runs' in
            ground (arith, stands, turn, here),
      )
