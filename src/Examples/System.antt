-- ===== src/Examples/System.antt =====
-- A task that is preempted and runs again, at concrete states: the idle task is interrupted, task 1
-- works and blocks itself, and the idle task goes on.
use taskette.Base.{ℕ, ◌≤◌, ◌<◌, ◌≡◌, refl, ap, sym, false, some, arith, update, ◌==◌, if◌then◌else◌}
use taskette.Base.Bits.{leading_zeros, digit}
use taskette.Heapless.Lists.{list_deque, list_map, list_heap}
use taskette.Memory.{Memory, load_words}
use taskette.Outcome.{ok}
use taskette.Kernel.{World, TaskInfo, SchedulerState, yield_now}
use taskette.Scheduler.Queues.{dequeue_task, remove_task_from_queue, clear_if_empty}
use taskette.Scheduler.Tasks.{block_in, block_task, current_task_id}
use taskette.Scheduler.Switch.{select_task, switch}
use taskette.Program.{block_self, perform}
use taskette.Cortex.PendSv.{sp}
use taskette.Cortex.Stack.{arch}
use taskette.Cortex.Multitasking.{IsRunnable, context_of}
use taskette.Cortex.Multitasking.Variants.{v7m-Handler, v7m-Holds_words}
use taskette.Cortex.System.{
  Machine, Sound, Turn, works, calls, switches, Switch, handled, Away, start, later, saved,
  switched,
}
use taskette.Cortex.System.Still.{Stepped}
use taskette.Cortex.System.Steps.{Turn-Stepped}
use taskette.Cortex.System.Resuming.{Resumed, preempted-Resumed}
use taskette.Examples.{
  one_task, one_task-Inv, one_task_last, worker, world, idle_clock, plain, blank, chosen,
}
use taskette.Examples.Multitasking.{zeros, no_canary}

-- Task 1 runs, then it has blocked itself, then the idle task runs.
unfoldable one_running : SchedulerState
unfolding one_task switch leading_zeros digit dequeue_task
one_running = chosen one_task (switch plain blank one_task 860)

unfoldable one_blocked : SchedulerState
unfolding one_running block_in remove_task_from_queue clear_if_empty
one_blocked = (block_in 1 one_running).1

unfoldable idle_again : SchedulerState
unfolding one_blocked switch leading_zeros digit dequeue_task
idle_again = chosen one_blocked (switch plain blank one_blocked 3860)

one_running_current : one_running.current_task ≡ 1
unfolding one_running
one_running_current = refl

idle_again_current : idle_again.current_task ≡ one_task.current_task
unfolding idle_again
idle_again_current = refl

abbrev stay : Memory → SchedulerState → World
stay memory s = record (world s idle_clock) { memory = memory }

first_switch :
    (memory : Memory)
    → select_task plain 860 (stay memory one_task) ≡ (ok 4000, stay memory one_running)
unfolding select_task one_running
first_switch memory = refl

blocks :
    (memory : Memory)
    → perform plain (arch 0) block_self (stay memory one_running)
      ≡ (ok tt, yield_now (stay memory one_blocked))
unfolding perform current_task_id block_task one_blocked
blocks memory = refl

second_switch :
    (memory : Memory)
    → select_task plain 3860 (yield_now (stay memory one_blocked))
      ≡ (ok 860, yield_now (stay memory idle_again))
unfolding select_task idle_again
second_switch memory = refl

abbrev first_low : ℕ → ℕ
first_low t = if t == 0 then 500 else 2000

abbrev first_high : ℕ → ℕ
first_high t = if t == 0 then 1000 else 4096

abbrev registers : ℕ → ℕ
registers r = if r == sp then 7 else 9

-- The idle task is interrupted at 900, and task 1 has a frame of zeros.
abbrev a : Machine
a = record {
  cpu = record { reg = registers; fp = λ _. 0; psp = 900; zero_flag = false; memory = blank };
  world = stay blank one_task;
  state = one_task;
  timer = idle_clock;
  contexts = λ _. record { registers = load_words 9 blank 4000; psp = 4040; size = 40 };
  low = first_low;
  high = first_high;
}

one_task_current : one_task.current_task ≡ 0
unfolding one_task
one_task_current = refl

one_task_worker : list_map.get one_task.tasks 1 ≡ some worker
unfolding one_task
one_task_worker = refl

abbrev idle_info : TaskInfo
idle_info = record { stack_pointer = 0; priority = 0; blocked = false; stack_limit = 0 }

one_task_idle : list_map.get one_task.tasks one_task.current_task ≡ some idle_info
unfolding one_task
one_task_idle = refl

only_worker :
    (t : ℕ) (i : TaskInfo)
    → list_map.get one_task.tasks t ≡ some i
    → (one_task.current_task == t) ≡ false
    → (t ≡ 1) × (i ≡ worker)
only_worker t i there other =
    let one : t ≡ 1 =
      ground (arith, one_task-Inv.placed.known t i there, one_task_last, one_task_current, other) in
    (one, ground (arith, there, one_task_worker, ap (list_map.get one_task.tasks) one))

a-Sound : Sound zeros a
a-Sound = record {
  here = refl;
  clock = refl;
  inv = one_task-Inv;
  shared = refl;
  frames = record {
    held = λ t i there other.
        let (one, block) = only_worker t i there other in
        rw (one, block) (v7m-Holds_words zeros blank 4000 (omega arith), omega arith, omega arith);
    apart = λ t u i j at_t at_u other. ground (
      arith,
      one_task-Inv.placed.known t i at_t,
      one_task-Inv.placed.known u j at_u,
      one_task_last,
      other,
    );
    current_apart = λ u j at other. rw one_task_current (ground (arith, only_worker u j at other));
  };
}

runnable :
    (psp : ℕ) (memory : Memory)
    → 40 ≤ psp
    → psp < 5000
    → IsRunnable
        (v7m-Handler zeros)
        (record { reg = registers; fp = λ _. 0; psp = psp; zero_flag = false; memory = memory })
runnable psp memory room small = record {
  room = room;
  small = omega (arith, small);
  word = λ r. ground arith;
  fp_word = λ r. omega arith;
}

abbrev b : Machine
b = record a {
  cpu = switched zeros plain a;
  world = stay (switched zeros plain a).memory one_running;
  state = one_running;
  contexts = update a.contexts one_task.current_task (context_of (v7m-Handler zeros) a.cpu);
}

a-Switch : Switch zeros plain a b
a-Switch =
    handled 4000 (stay (saved zeros plain a).memory one_running) one_running
      (runnable 900 blank (omega arith) (omega arith)) (rw one_task_current (omega arith))
      (rw one_task_current (omega arith))
      (no_canary (saved zeros plain a).memory (list_map.get one_task.tasks one_task.current_task))
      (first_switch (saved zeros plain a).memory) refl

-- Task 1 has come to 3900.
abbrev c : Machine
c = record b {
  cpu = record {
    reg = registers;
    fp = λ _. 0;
    psp = 3900;
    zero_flag = false;
    memory = b.cpu.memory;
  };
}

b-Turn : Turn zeros plain 0 b c
b-Turn =
    works c.cpu (sym ((Turn-Stepped zeros a a-Sound plain 0 (switches a-Switch)).main))
      (λ t i there other k from to. refl)

abbrev d : Machine
d = record c { world = yield_now (stay b.cpu.memory one_blocked); state = one_blocked }

one_running_worker : list_map.get one_running.tasks one_running.current_task ≡ some worker
unfolding one_running
one_running_worker = refl

one_running_awake :
    (i : TaskInfo)
    → list_map.get one_running.tasks one_running.current_task ≡ some i
    → i.blocked ≡ false
one_running_awake i there = ground (arith, one_running_worker, there)

c-Turn : Turn zeros plain 0 c d
c-Turn =
    calls block_self (ok tt) d.world one_blocked idle_clock tt
      (one_running_awake, λ e. absurd (omega (arith, one_running_current, e))) (blocks b.cpu.memory)
      refl refl

abbrev e : Machine
e = record d {
  cpu = switched zeros plain d;
  world = yield_now (stay (switched zeros plain d).memory idle_again);
  state = idle_again;
  contexts = update d.contexts one_blocked.current_task (context_of (v7m-Handler zeros) d.cpu);
}

one_blocked_current : one_blocked.current_task ≡ 1
unfolding one_blocked
one_blocked_current = refl

d-Switch : Switch zeros plain d e
d-Switch =
    handled 860 (yield_now (stay (saved zeros plain d).memory idle_again)) idle_again
      (runnable 3900 b.cpu.memory (omega arith) (omega arith))
      (rw one_blocked_current (omega arith)) (rw one_blocked_current (omega arith))
      (no_canary (saved zeros plain d).memory
        (list_map.get one_blocked.tasks one_blocked.current_task))
      (second_switch (saved zeros plain d).memory) refl

away : Away zeros plain 0 one_task.current_task b e
away =
    later
      (later (later start (rw (one_running_current, one_task_current) refl) b-Turn)
        (rw (one_running_current, one_task_current) refl) c-Turn)
      (rw (one_blocked_current, one_task_current) refl) (switches d-Switch)

preempted-Resumed_example : Sound zeros e × Resumed zeros one_task.current_task a e
preempted-Resumed_example =
    preempted-Resumed zeros plain 0 a a-Sound idle_info one_task_idle b e a-Switch away
      idle_again_current

Turn-Stepped_example : Stepped zeros a b
Turn-Stepped_example = Turn-Stepped zeros a a-Sound plain 0 (switches a-Switch)
