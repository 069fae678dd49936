-- ===== src/Scheduler/Tasks.antt =====
-- `spawn`, `block_task`, `unblock_task`, `remove_task`, `current_task_id`, and the end of a task.
use taskette.Base.{
  ℕ, ◌+◌, ◌%◌, ◌^◌, Bool, true, false, Option, none, some, List, ltb, ◌==◌, if◌then◌else◌,
}
use taskette.Heapless.{DequeLib, IndexMapLib, BinaryHeapLib}
use taskette.Memory.{Memory}
use taskette.Outcome.{
  Outcome, ok, err, panic, task_full, invalid_priority, not_found, not_initialized, Features,
}
use taskette.Outcome.Run.{M, pure, ◌>>=◌, ◌>>◌, expect}
use taskette.Kernel.{
  TaskInfo, SchedulerState, World, save, yield_now, usize_bits, max_priority, idle_task_id,
}
use taskette.Scheduler.Queues.{enqueue_task, remove_task_from_queue}
use taskette.Scheduler.Canary.{fill_stack_canary}

-- What `spawn` and `start` call of the crate of the chip (taskette/src/arch.rs). `init_stack`
-- takes the top of the stack, the entry point and the bytes of the closure.
pub record Arch : Type 0 where
  pub init_stack : Memory → ℕ → ℕ → List ℕ → ℕ × Memory
  pub setup : ℕ → ℕ → Outcome (Unit {0})

-- `as_mut_ptr_range()` of a stack.
pub record StackRange : Type 0 where
  pub start : ℕ
  pub end : ℕ

-- `last_task_id.wrapping_add(1)`, which skips the idle task's.
unfoldable pub next_task_id : ℕ → ℕ
next_task_id last =
    let id = (last + 1) % 2 ^ usize_bits in
    if id == idle_task_id then (id + 1) % 2 ^ usize_bits else id

module _ ⦃d : DequeLib⦄ ⦃m : IndexMapLib⦄ where
  unfoldable pub register_as : ℕ → TaskInfo → M SchedulerState ℕ
  register_as id t s = elim (m.insert s.tasks id t) [
    | none ↦ (err task_full, record s { last_task_id = id })
    | some tasks ↦ elim (enqueue_task s.queues s.priority_map id t.priority) [
      | ok (queues, map) ↦ (
        ok id,
        record s { tasks = tasks; last_task_id = id; queues = queues; priority_map = map },
      )
      | err e ↦ (err e, record s { tasks = tasks; last_task_id = id })
      | panic ↦ (panic, s)
    ]
  ]

  -- The body of the critical section of `spawn`.
  unfoldable pub register_task : TaskInfo → M SchedulerState ℕ
  unfolding register_as
  register_task t s = register_as (next_task_id s.last_task_id) t s

  -- The bodies of `block_task`, `unblock_task` and `remove_task`; the flag says whether a switch
  -- is requested.
  unfoldable pub block_in : ℕ → M SchedulerState Bool
  block_in id s = elim (m.get s.tasks id) [
    | none ↦ (err not_found, s)
    | some t ↦
        if t.blocked
        then (ok false, s)
        else elim (remove_task_from_queue s.queues s.priority_map id t.priority) [
          | ok (queues, map) ↦ (
            ok true,
            record s {
              tasks = m.put s.tasks id (record t { blocked = true });
              queues = queues;
              priority_map = map;
            },
          )
          | err e ↦ (err e, s)
          | panic ↦ (panic, s)
        ]
  ]

  -- The task is marked before it is enqueued, so that the mark stays where the queue is full.
  unfoldable pub unblock_in : ℕ → M SchedulerState Bool
  unblock_in id s = elim (m.get s.tasks id) [
    | none ↦ (err not_found, s)
    | some t ↦
        if t.blocked
        then (let tasks = m.put s.tasks id (record t { blocked = false }) in
            elim (enqueue_task s.queues s.priority_map id t.priority) [
              | ok (queues, map) ↦
                  (ok true, record s { tasks = tasks; queues = queues; priority_map = map })
              | err e ↦ (err e, record s { tasks = tasks })
              | panic ↦ (panic, s)
            ])
        else (ok false, s)
  ]

  unfoldable pub remove_in : ℕ → M SchedulerState (Unit {0})
  remove_in id s =
      let (removed, tasks) = m.remove s.tasks id in
      elim removed [
        | none ↦ (err not_found, record s { tasks = tasks })
        | some t ↦ elim (remove_task_from_queue s.queues s.priority_map id t.priority) [
          | ok (queues, map) ↦
              (ok tt, record s { tasks = tasks; queues = queues; priority_map = map })
          | err e ↦ (err e, s)
          | panic ↦ (panic, s)
        ]
      ]

module _ ⦃d : DequeLib⦄ ⦃m : IndexMapLib⦄ ⦃h : BinaryHeapLib⦄ where
  abbrev pub saved : {A : Type 0} → World → Outcome A × SchedulerState → Outcome A × World
  saved w (r, s) = (r, save w s)

  abbrev pub enter :
      {A : Type 0}
      → Outcome A
      → M SchedulerState A
      → World
      → Option SchedulerState
      → Outcome A × World
  enter absent body w none = (absent, w)
  enter absent body w (some s) = saved w (body s)

  -- `critical_section::with` on the scheduler's state; the outcome without one is given.
  abbrev pub with_state : {A : Type 0} → Outcome A → M SchedulerState A → M World A
  with_state absent body w = enter absent body w w.scheduler_state

  -- `yield_now()`, where it is reached.
  abbrev pub yield_if : Bool → M World (Unit {0})
  yield_if true w = (ok tt, yield_now w)
  yield_if false w = (ok tt, w)

  unfoldable pub block_task : ℕ → M World (Unit {0})
  block_task id = with_state (err not_initialized) (block_in id) >>= yield_if

  unfoldable pub unblock_task : ℕ → M World (Unit {0})
  unblock_task id = with_state (err not_initialized) (unblock_in id) >>= yield_if

  unfoldable pub remove_task : ℕ → M World (Unit {0})
  remove_task id = with_state panic (remove_in id)

  unfoldable pub current_task_id : M World ℕ
  current_task_id = with_state (err not_initialized) (λ s. (ok s.current_task, s))

  -- The end of `call_closure`, after the task's function has returned; then it spins.
  unfoldable pub finish_task : M World (Unit {0})
  unfolding remove_task
  finish_task = do id ← with_state panic (λ s. (ok s.current_task, s)); expect (remove_task id)

  -- The canary is filled and the stack prepared before the state is looked at.
  unfoldable pub prepare_stack : Features → Arch → ℕ → List ℕ → StackRange → M World ℕ
  prepare_stack f arch pc arg stack w =
      let filled = if f.stack_canary then fill_stack_canary w.memory stack.start else w.memory in
      let (sp, memory) = arch.init_stack filled stack.end pc arg in
      (ok sp, record w { memory = memory })

  unfoldable pub has_started : M World Bool
  has_started = with_state (ok false) (λ s. (ok s.started, s))

  -- A new task may have a higher priority than the one that runs.
  unfoldable pub preempt : ℕ → M World ℕ
  unfolding has_started
  preempt id = do started ← has_started; yield_if started; pure id

  -- `pc` is the address of `call_closure`, `arg` the bytes of the closure.
  unfoldable pub spawn : Features → Arch → ℕ → List ℕ → StackRange → ℕ → M World ℕ
  unfolding prepare_stack preempt
  spawn f arch pc arg stack priority =
      if ltb max_priority priority then (λ w. (err invalid_priority, w)) else do
        sp ← prepare_stack f arch pc arg stack
        id ← with_state (err not_initialized) (
            register_task (record {
              stack_pointer = sp;
              priority = priority;
              blocked = false;
              stack_limit = stack.start;
            }))
        preempt id
