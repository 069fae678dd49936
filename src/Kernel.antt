-- ===== src/Kernel.antt =====
-- The state of the program: the statics of taskette/src/scheduler.rs and timer.rs, the memory in
-- which the stacks lie, and the requests made to the hardware.
use Prim.Native.Nat.{compare, Ordering}
use taskette.Base.{ℕ, ◌+◌, Bool, true, Option}
use taskette.Heapless.{DequeLib, IndexMapLib, BinaryHeapLib}
use taskette.Memory.{Memory}

abbrev pub max_num_tasks : ℕ
max_num_tasks = 16

abbrev pub max_priority : ℕ
max_priority = 10

abbrev pub idle_task_id : ℕ
idle_task_id = 0

abbrev pub idle_priority : ℕ
idle_priority = 0

abbrev pub queue_len : ℕ
queue_len = max_num_tasks + 1

-- The number of queues, one for each priority.
abbrev pub num_queues : ℕ
num_queues = max_priority + 1

abbrev pub max_timer_regs : ℕ
max_timer_regs = 32

-- `usize` is 32 bits wide on the supported chips.
abbrev pub usize_bits : ℕ
usize_bits = 32

-- The task control block. `stack_limit` is there with the feature `stack-canary`.
pub record TaskInfo : Type 0 where
  pub stack_pointer : ℕ
  pub priority : ℕ
  pub blocked : Bool
  pub stack_limit : ℕ

pub record SchedulerConfig : Type 0 where
  pub tick_freq : ℕ

pub record TimerRegistry : Type 0 where
  pub time : ℕ
  pub task_id : ℕ

-- `Ord for TimerRegistry`: by time alone.
abbrev pub cmp : TimerRegistry → TimerRegistry → Ordering
cmp a b = compare a.time b.time

module _ ⦃d : DequeLib⦄ where
  -- The array of queues; the code that indexes it checks the index.
  abbrev pub Queues : Type 0
  Queues = ℕ → d.Deque queue_len

module _ ⦃d : DequeLib⦄ ⦃m : IndexMapLib⦄ where
  pub record SchedulerState : Type 0 where
    pub tasks : m.IndexMap TaskInfo max_num_tasks
    pub last_task_id : ℕ
    pub queues : Queues
    pub priority_map : ℕ
    pub current_task : ℕ
    pub started : Bool

module _ ⦃h : BinaryHeapLib⦄ where
  pub record Timer : Type 0 where
    pub time : ℕ
    pub queue : h.BinaryHeap TimerRegistry cmp max_timer_regs

-- `switch_pending` is the request for a context switch that the hardware has not served yet;
-- `idle_task_stack` is the stack of the idle task, start and end, until it is taken.
module _ ⦃d : DequeLib⦄ ⦃m : IndexMapLib⦄ ⦃h : BinaryHeapLib⦄ where
  pub record World : Type 0 where
    pub scheduler_state : Option SchedulerState
    pub scheduler_config : Option SchedulerConfig
    pub timer : Option Timer
    pub idle_task_stack : Option (ℕ × ℕ)
    pub memory : Memory
    pub switch_pending : Bool

  -- `SCB::set_pendsv()`, or the software interrupt: a switch is requested.
  abbrev pub yield_now : World → World
  yield_now w = record w { switch_pending = true }

  -- The scheduler's state after a critical section.
  abbrev pub save : World → SchedulerState → World
  save w s = record w { scheduler_state = Option.some s }
