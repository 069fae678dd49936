-- ===== src/Examples.antt =====
-- Concrete states: the state after `init`, with two tasks of priority 5, and with one blocked.
pub mod Kernel
pub mod Waits
pub mod Chips
pub mod Program
pub mod Futures
pub mod Multitasking
pub mod System
pub mod Demos
pub mod Hart
pub mod Boot
use taskette.Base.{
  ℕ, zero, suc, ◌≤◌, ◌<◌, ◌≡◌, ◌≢◌, refl, ap, sym, subst, ◌∙◌, ◌+◌, Bool, true, false, Option, none,
  some, List, [], ◌∷◌, arith, length,
}
use taskette.Heapless.{DequeLib, IndexMapLib, BinaryHeapLib}
use taskette.Heapless.Lists.{list_deque, list_map, list_heap}
use taskette.Memory.{Memory}
use taskette.Outcome.{Outcome, ok, err, panic, Features}
use taskette.Base.Bits.{leading_zeros, digit}
use taskette.Kernel.{TaskInfo, SchedulerState, World, Timer, TimerRegistry, cmp, max_timer_regs}
use taskette.Scheduler.Init.{initial_state}
use taskette.Scheduler.Tasks.{Arch, StackRange, register_task, register_as, block_in, next_task_id}
use taskette.Scheduler.Queues.{enqueue_task, dequeue_task, remove_task_from_queue, clear_if_empty}
use taskette.Scheduler.Queues.Effects.{line}
use taskette.Scheduler.RoundRobin.{Top}
use taskette.Scheduler.Switch.{switch}
use taskette.Timer.Lateness.{due}
use taskette.Futex.{Futex, Shared, new, add_waiter}
use taskette.Futex.Waking.{Sleeping}
use taskette.Scheduler.Invariant.{Inv}
use taskette.Scheduler.Invariant.Storing.{CanaryOk}
use taskette.Scheduler.Invariant.Switching.{switch-Switches}
use taskette.Scheduler.Invariant.Starting.{initial_state-Inv}
use taskette.Scheduler.Invariant.Spawning.{register_task-Registers}
use taskette.Scheduler.Invariant.Blocking.{block_in-Blocks}

abbrev state_or : SchedulerState → Outcome SchedulerState → SchedulerState
state_or s (ok t) = t
state_or s (err e) = s
state_or s panic = s

unfoldable pub idle_only : SchedulerState
unfolding initial_state
idle_only = state_or ((initial_state-Inv 0).0) (initial_state 0)

pub idle_only-Inv : Inv idle_only
unfolding idle_only
idle_only-Inv =
    let (s, runs, inv, started, current, last) = initial_state-Inv 0 in
    subst Inv (sym (ap (state_or s) runs)) inv

abbrev pub worker : TaskInfo
worker = record { stack_pointer = 4000; priority = 5; blocked = false; stack_limit = 2000 }

unfoldable pub one_task : SchedulerState
unfolding register_task register_as idle_only initial_state list_map list_deque enqueue_task
    next_task_id
one_task = (register_task worker idle_only).1

pub idle_only_room : length (list_map.keys idle_only.tasks) ≡ 1
unfolding idle_only initial_state list_map list_deque
idle_only_room = refl

pub idle_only_last : idle_only.last_task_id ≡ 0
unfolding idle_only initial_state list_map list_deque
idle_only_last = refl

pub idle_only_current : idle_only.current_task ≡ 0
unfolding idle_only initial_state list_map list_deque
idle_only_current = refl

pub one_task-Inv : Inv one_task
unfolding one_task
one_task-Inv =
    let (s, runs, made) =
      register_task-Registers idle_only idle_only-Inv worker (omega (arith, idle_only_last)) refl
        (omega arith) (omega (arith, idle_only_room)) in
    subst Inv (sym (ap (λ (r : Outcome ℕ × SchedulerState). r.1) runs)) made.inv

unfoldable pub two_tasks : SchedulerState
unfolding one_task
two_tasks = (register_task worker one_task).1

one_task_room : length (list_map.keys one_task.tasks) ≡ 2
unfolding one_task
one_task_room = refl

pub one_task_last : one_task.last_task_id ≡ 1
unfolding one_task
one_task_last = refl

pub two_tasks-Inv : Inv two_tasks
unfolding two_tasks one_task
two_tasks-Inv =
    let (s, runs, made) =
      register_task-Registers one_task one_task-Inv worker (omega (arith, one_task_last)) refl
        (omega arith) (omega (arith, one_task_room)) in
    subst Inv (sym (ap (λ (r : Outcome ℕ × SchedulerState). r.1) runs)) made.inv

-- A debug build without the optional features.
abbrev pub plain : Features
plain = record { stack_canary = false; round_robin = false; overflow_checks = true }

abbrev pub blank : Memory
blank _ = 0

abbrev pub chosen : SchedulerState → Outcome (ℕ × SchedulerState) → SchedulerState
chosen s (ok (sp, t)) = t
chosen s (err e) = s
chosen s panic = s

-- Task 1 runs, and task 2 waits for its turn.
unfoldable pub running : SchedulerState
unfolding two_tasks switch leading_zeros digit dequeue_task
running = chosen two_tasks (switch plain blank two_tasks 9000)

pub two_tasks-CanaryOk : CanaryOk plain blank two_tasks
unfolding two_tasks
two_tasks-CanaryOk = λ _. refl

pub running-Inv : Inv running
unfolding running
running-Inv =
    let (sp, s, runs, sw) =
      switch-Switches plain blank two_tasks two_tasks-Inv 9000 two_tasks-CanaryOk in
    subst Inv (sym (ap (chosen two_tasks) runs)) sw.inv

pub running_current : running.current_task ≡ 1
unfolding running
running_current = refl

pub running_waits : list_map.get running.tasks 2 ≡ some worker
unfolding running
running_waits = refl

pub running_runs : list_map.get running.tasks running.current_task ≡ some worker
unfolding running
running_runs = refl

pub running_awake :
    (i : TaskInfo) → list_map.get running.tasks running.current_task ≡ some i → i.blocked ≡ false
running_awake i there = ground (arith, running_runs, there)

-- Task 2 is blocked.
unfoldable pub asleep : SchedulerState
unfolding running block_in remove_task_from_queue clear_if_empty
asleep = (block_in 2 running).1

pub asleep-Inv : Inv asleep
unfolding asleep
asleep-Inv =
    let (s, runs, blocks) =
      block_in-Blocks running running-Inv 2 worker running_waits (λ e. absurd (omega arith)) refl in
    subst Inv (sym (ap (λ (r : Outcome Bool × SchedulerState). r.1) runs)) blocks.inv

abbrev pub sleeper : TaskInfo
sleeper = record worker { blocked = true }

pub asleep_current : asleep.current_task ≡ 1
unfolding asleep
asleep_current = refl

pub asleep_sleeps : list_map.get asleep.tasks 2 ≡ some sleeper
unfolding asleep
asleep_sleeps = refl

abbrev pub Alarms : Type 0
Alarms = list_heap.BinaryHeap TimerRegistry cmp max_timer_regs

abbrev no_alarm : Alarms
no_alarm = list_heap.new {T = TimerRegistry} {cmp = cmp} {n = max_timer_regs}

abbrev pub alarm : TimerRegistry
alarm = record { time = 20; task_id = 2 }

abbrev alarms_or : Option Alarms → Alarms
alarms_or none = no_alarm
alarms_or (some queue) = queue

-- Nobody waits, and task 2 is to be woken at 20.
unfoldable pub idle_clock : Timer
unfolding list_heap
idle_clock = record { time = 19; queue = no_alarm }

unfoldable pub clock : Timer
unfolding list_heap
clock = record {
  time = 19;
  queue = alarms_or (list_heap.push {cmp = cmp} {n = max_timer_regs} no_alarm alarm);
}

abbrev pub world : SchedulerState → Timer → World
world s timer = record {
  scheduler_state = some s;
  scheduler_config = none;
  timer = some timer;
  idle_task_stack = none;
  memory = blank;
  switch_pending = false;
}

-- A chip that leaves the stack as it is.
abbrev pub still : Arch
still = record { init_stack = λ m sp pc arg. (sp, m); setup = λ clock_freq tick_freq. ok tt }

abbrev pub stack : StackRange
stack = record { start = 2000; end = 4000 }

pub running_room : length (list_map.keys running.tasks) ≡ 3
unfolding running
running_room = refl

pub running_last : running.last_task_id ≡ 2
unfolding running
running_last = refl

pub two_tasks-Top : Top 5 two_tasks
unfolding two_tasks
two_tasks-Top t i at ready = ground (arith, at)

pub two_tasks_line : line two_tasks.queues 5 ≡ 1 ∷ 2 ∷ []
unfolding two_tasks
two_tasks_line = refl

pub clock_time : clock.time ≡ 19
unfolding clock
clock_time = refl

pub clock_first : list_heap.peek clock.queue ≡ some alarm
unfolding clock
clock_first = refl

pub clock_items : length (list_heap.items clock.queue) ≡ 1
unfolding clock
clock_items = refl

pub idle_clock_time : idle_clock.time ≡ 19
unfolding idle_clock
idle_clock_time = refl

pub idle_clock_quiet : due (idle_clock.time + 1) idle_clock ≡ 0
unfolding idle_clock
idle_clock_quiet = refl

-- A futex that nobody waits on, and one that task 2 waits on.
unfoldable pub free : Futex
unfolding new list_deque
free = new 7

unfoldable pub awaited : Futex
unfolding add_waiter free
awaited = (add_waiter 2 free).1

pub free_value : free.value ≡ 7
unfolding free
free_value = refl

pub free_items : list_deque.items free.waiting_tasks ≡ []
unfolding free
free_items = refl

pub awaited_items : list_deque.items awaited.waiting_tasks ≡ 2 ∷ []
unfolding awaited
awaited_items = refl

abbrev pub shared : SchedulerState → Futex → Shared
shared s futex = record { futex = futex; world = world s idle_clock }

pub asleep-Sleeping : Sleeping asleep (2 ∷ [])
asleep-Sleeping = record {
  blocked = λ t k. (
    sleeper,
    ap (list_map.get asleep.tasks) {x = t} {y = 2} (ground arith) ∙ asleep_sleeps,
    refl,
  );
  once = λ t. ground arith;
  elsewhere = rw asleep_current refl;
}
