-- ===== src/Examples/Boot.antt =====
-- The way from `init` to the idle task, and the choice of the next task, at concrete states.
use taskette.Base.{ℕ, ◌≡◌, refl, none, some, false, arith}
use taskette.Heapless.Lists.{list_deque, list_map, list_heap}
use taskette.Memory.{Memory}
use taskette.Outcome.{Outcome, ok}
use taskette.Kernel.{World, SchedulerConfig}
use taskette.Scheduler.Init.{Handle}
use taskette.Scheduler.Switch.{choose_next}
use taskette.Scheduler.Scan.{choose_by_scan, choose_next-scan}
use taskette.Timer.Ops.{handle_tick}
use taskette.Program.Ending.{Fine}
use taskette.Cortex.PendSv.{Cpu, pend_sv, sp, v6m_save, v6m_restore, v7m_save, v7m_restore}
use taskette.Cortex.PendSv.Contexts.{after}
use taskette.Cortex.PendSv.Agreement.{v6m-eq-v7m}
use taskette.Cortex.Launch.{Thread}
use taskette.Cortex.Multitasking.Variants.{core_context}
use taskette.Esp.Switch.{Hart, save_context, swint_handler}
use taskette.Esp.Switch
use taskette.Esp.Switch.Continuing
use taskette.Esp.Launch
use taskette.Esp.Ticks.{Statics, setup, start_timer}
use taskette.Esp.Ticks.Interrupt.{systimer_handler, systimer_handler-Fine}
use taskette.Examples.{
  idle_only, two_tasks, two_tasks-Inv, running, running-Inv, running_awake, idle_clock,
  idle_clock_time, world, plain, blank, still,
}
use taskette.Examples.Multitasking.{zeros}

-- Before `init`: a program whose idle task has 1024 bytes for its stack.
abbrev pub untouched : World
untouched = record {
  scheduler_state = none;
  scheduler_config = none;
  timer = none;
  idle_task_stack = some (1000, 2024);
  memory = blank;
  switch_pending = false;
}

abbrev fast : SchedulerConfig
fast = record { tick_freq = 5000 }

abbrev initialized : World
initialized = record (world idle_only idle_clock) { scheduler_config = some fast }

abbrev handle : Handle
handle = record {
  clock_freq = 12_000_000;
  idle_task_stack_start = 1000;
  idle_task_stack_end = 2024;
}

-- Privileged thread mode on the main stack.
abbrev in_main : Thread
in_main = record { msp = 3000; psp = 0; control = 0; lr = 0; pc = 0 }

choose_next-scan_example : choose_next plain two_tasks ≡ choose_by_scan two_tasks
choose_next-scan_example = choose_next-scan plain two_tasks two_tasks-Inv.placed.flags

abbrev stay : ℕ → Memory → ℕ × Memory
stay p m = (p, m)

abbrev cpu : Cpu
cpu = record { reg = λ _. 7; fp = λ _. 7; psp = 900; zero_flag = false; memory = blank }

v6m-eq-v7m_example :
    (core_context (after stay zeros (pend_sv v6m_save v6m_restore) cpu)
      ≡ core_context (after stay zeros (pend_sv v7m_save v7m_restore) cpu))
    × ((after stay zeros (pend_sv v6m_save v6m_restore) cpu).psp
        ≡ (after stay zeros (pend_sv v7m_save v7m_restore) cpu).psp)
    × ((after stay zeros (pend_sv v6m_save v6m_restore) cpu).memory
        ≡ (after stay zeros (pend_sv v7m_save v7m_restore) cpu).memory)
    × ((after stay zeros (pend_sv v6m_save v6m_restore) cpu).reg sp
        ≡ (after stay zeros (pend_sv v7m_save v7m_restore) cpu).reg sp)
v6m-eq-v7m_example = v6m-eq-v7m stay zeros cpu (omega arith) (omega arith) (omega arith)

-- The main program, and a task that is interrupted later.
abbrev main_hart : Hart
main_hart = record {
  reg = λ _. 3000;
  mepc = 0;
  mscratch = 0;
  mstatus = 0;
  mstatus_save = 0;
  main_stack_ptr = 0;
  memory = blank;
}

abbrev task_hart : Hart
task_hart = record main_hart { reg = λ _. 9000; main_stack_ptr = 3000 }

run_with_stack-launches_example :
    ((Launch.run_with_stack 6 64 700 600 2024 main_hart).0 ≡ 600)
    × ((Launch.run_with_stack 6 64 700 600 2024 main_hart).1.reg Switch.sp ≡ 2024)
    × ((Launch.run_with_stack 6 64 700 600 2024 main_hart).1.memory ≡ blank)
    × ((Continuing.after stay zeros save_context (swint_handler 256 task_hart)).reg Switch.sp
        ≡ 3000)
unfolding Launch.run_with_stack
run_with_stack-launches_example =
    Launch.run_with_stack-launches stay zeros 6 64 700 600 2024 main_hart
      (λ e. absurd (omega (arith, e))) 256 task_hart refl (omega arith) (omega arith)

-- A timer that is its period, and 0 while it does not run.
abbrev begin : ℕ → ℕ → Outcome ℕ
begin timer micros = ok micros

abbrev clear : ℕ → ℕ
clear timer = timer

abbrev unset : Statics ℕ begin
unset = record { tick_freq = none; timer = none }

systimer_handler-Fine_example :
    (s : Statics ℕ begin) × (r : Outcome (Unit {0})) × (w' : World) × (start_timer ℕ begin
        (setup ℕ begin 0 160_000_000 300 unset)
      ≡ ok s)
    × (systimer_handler ℕ begin clear plain s (world running idle_clock)
        ≡ (r, record s { timer = some 3333 }, w'))
    × (handle_tick plain (world running idle_clock) ≡ (r, w'))
    × Fine (r, w')
systimer_handler-Fine_example =
    systimer_handler-Fine ℕ begin clear plain still 0 3333 160_000_000 300 unset
      (world running idle_clock)
      (record { state = running; here = refl; inv = running-Inv; timer = idle_clock; clock = refl })
      (omega arith) refl running_awake (omega (arith, idle_clock_time))
