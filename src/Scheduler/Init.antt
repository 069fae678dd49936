-- ===== src/Scheduler/Init.antt =====
-- `Scheduler::init`, `Scheduler::start` and `get_config`.
use taskette.Base.{ℕ, Bool, true, false, Option, none, some, if◌then◌else◌, update}
use taskette.Heapless.{DequeLib, IndexMapLib, BinaryHeapLib}
use taskette.Outcome.{Outcome, ok, err, panic, not_initialized, Features}
use taskette.Outcome.Run.{M, ◌>>=◌, ◌>>◌}
use taskette.Kernel.{
  TaskInfo, SchedulerState, SchedulerConfig, World, save, idle_task_id, idle_priority,
  max_num_tasks, queue_len,
}
use taskette.Scheduler.Canary.{fill_stack_canary}
use taskette.Scheduler.Tasks.{Arch}
use taskette.Timer

-- The handle `Scheduler`.
pub record Handle : Type 0 where
  pub clock_freq : ℕ
  pub idle_task_stack_start : ℕ
  pub idle_task_stack_end : ℕ

-- What `_taskette_run_with_stack` is called with; the entry is the idle loop.
pub record Launch : Type 0 where
  pub stack_top : ℕ
  pub stack_bottom : ℕ

-- `SchedulerConfig::default()` and `with_tick_freq`.
unfoldable pub default_config : SchedulerConfig
default_config = record { tick_freq = 1000 }

unfoldable pub with_tick_freq : SchedulerConfig → ℕ → SchedulerConfig
with_tick_freq config tick_freq = record config { tick_freq = tick_freq }

module _ ⦃d : DequeLib⦄ ⦃m : IndexMapLib⦄ where
  -- Task 0 is the idle task, alone in the queue of priority 0.
  unfoldable pub initial_state : ℕ → Outcome SchedulerState
  initial_state stack_limit =
      elim (m.insert {V = TaskInfo} {n = max_num_tasks} m.empty idle_task_id (record {
        stack_pointer = 0;
        priority = idle_priority;
        blocked = false;
        stack_limit = stack_limit;
      })) [
        | none ↦ panic
        | some tasks ↦ elim (d.push_back {n = queue_len} d.new idle_task_id) [
          | none ↦ panic
          | some queue ↦ ok (record {
            tasks = tasks;
            last_task_id = idle_task_id;
            queues = update (λ _. d.new) idle_priority queue;
            priority_map = 0b1;
            current_task = idle_task_id;
            started = false;
          })
        ]
      ]

module _ ⦃d : DequeLib⦄ ⦃m : IndexMapLib⦄ ⦃h : BinaryHeapLib⦄ where
  -- `_taskette_get_idle_task_stack`: `try_take` of a static cell, which gives its content once.
  abbrev pub get_idle_task_stack : M World (Option (ℕ × ℕ))
  get_idle_task_stack w = (ok w.idle_task_stack, record w { idle_task_stack = none })

  abbrev pub set_config : SchedulerConfig → M World (Unit {0})
  set_config config w = (ok tt, record w { scheduler_config = some config })

  abbrev pub installed : World → Outcome SchedulerState → Outcome Bool × World
  installed w (ok s) = (ok true, Timer.init (save w s))
  installed w (err e) = (err e, w)
  installed w panic = (panic, w)

  -- `false` where the scheduler is initialized already.
  abbrev pub install : ℕ → M World Bool
  install stack_limit w = elim w.scheduler_state [
    | some s ↦ (ok false, w)
    | none ↦ installed w (initial_state stack_limit)
  ]

  abbrev pub fill_idle : Features → ℕ → M World (Unit {0})
  fill_idle f start w = (
    ok tt,
    record w { memory = if f.stack_canary then fill_stack_canary w.memory start else w.memory },
  )

  unfoldable pub init_on : Features → ℕ → Option (ℕ × ℕ) → M World (Option Handle)
  init_on f clock_freq none w = (ok none, w)
  init_on f clock_freq (some (start, end)) w =
      (fill_idle f start >> install start >>= λ fresh w'. (
        ok (
            if fresh
            then some (record {
              clock_freq = clock_freq;
              idle_task_stack_start = start;
              idle_task_stack_end = end;
            })
            else none),
        w',
      ))
        w

  unfoldable pub init : Features → ℕ → SchedulerConfig → M World (Option Handle)
  unfolding init_on
  init f clock_freq config = do
    set_config config
    stack ← get_idle_task_stack
    init_on f clock_freq stack

  unfoldable pub get_config : M World SchedulerConfig
  get_config w = elim w.scheduler_config [ none ↦ (err not_initialized, w) | some c ↦ (ok c, w) ]

  abbrev pub mark_started : M World (Unit {0})
  mark_started w = elim w.scheduler_state [
    | none ↦ (ok tt, w)
    | some s ↦ (ok tt, save w (record s { started = true }))
  ]

  abbrev pub config_or_panic : M World SchedulerConfig
  config_or_panic w = elim w.scheduler_config [ none ↦ (panic, w) | some c ↦ (ok c, w) ]

  -- `_taskette_run_with_stack`, with the idle loop for its entry.
  abbrev pub launch : Handle → M World Launch
  launch handle w = (
    ok (record {
      stack_top = handle.idle_task_stack_end;
      stack_bottom = handle.idle_task_stack_start;
    }),
    w,
  )

  abbrev pub set_up : Arch → Handle → SchedulerConfig → M World (Unit {0})
  set_up arch handle config w = (arch.setup handle.clock_freq config.tick_freq, w)

  -- `start` up to the jump into the idle task.
  unfoldable pub start : Arch → Handle → M World Launch
  start arch handle = do
    config ← config_or_panic
    set_up arch handle config
    mark_started
    launch handle
