-- ===== src/Examples/Hart.antt =====
-- The first stack of a task on Cortex-M, and multitasking on RISC-V, at concrete states.
use taskette.Base.{
  ℕ, ◌+◌, ◌-◌, ◌≤◌, ◌≡◌, refl, inr, sym, subst, ◌∙◌, suc, update, if◌then◌else◌, some, List, [],
  arith,
}
use taskette.Outcome.{ok}
use taskette.Machine.{padded}
use taskette.Machine.Frames.{load_bytes}
use taskette.Contexts.{Context, Frames, alone-Frames, kernel}
use taskette.Kernel.{World, TaskInfo, SchedulerState, save, yield_now}
use taskette.Heapless.Lists.{list_deque, list_map, list_heap}
use taskette.Scheduler.Tasks.{spawn}
use taskette.Scheduler.Switch.{select_task}
use taskette.Scheduler.Invariant.Spawning
use taskette.Scheduler.Invariant.Switching.{Switches}
use taskette.Esp.Switch.{Hart, Instr, sp, save_context, switch_context, swint_handler}
use taskette.Esp.Switch.Continuing.{IsWord, after, context}
use taskette.Esp.Stack.{arch}
use taskette.Esp.Stack.Starting.{closure_at}
use taskette.Esp.Multitasking.{Holds, context_of}
use taskette.Esp.Multitasking.Switching.{swint-Switches}
use taskette.Esp.Multitasking.Spawning.{block, first_context, spawn-HartFrames}
use taskette.Examples.{
  idle_only, idle_only-Inv, idle_only_room, idle_only_last, idle_only_current, plain, blank, stack,
}
use taskette.Examples.Multitasking.{zeros, no_context, start_world, no_canary}

-- A closure of three bytes takes eight.
room_8 : padded 8 3 + 72 ≤ 4000
unfolding padded
room_8 = omega arith

-- The idle task runs on `[500, 1000)`.
alone : Frames (Holds zeros) idle_only blank no_context (λ _. 500) (λ _. 1000)
alone =
    alone-Frames (Holds zeros) idle_only blank no_context (λ _. 500) (λ _. 1000) idle_only-Inv
      idle_only_current idle_only_last

room_16 : stack.start + 16 + padded 16 0 + 128 ≤ stack.end
unfolding padded
room_16 = omega arith

abbrev hart_block : ℕ → TaskInfo
hart_block priority =
    block zeros plain start_world idle_only refl idle_only-Inv 512 [] stack priority room_16
      (omega arith) (omega arith)

abbrev hart_low : ℕ → ℕ
hart_low = update (λ _. 500) (suc idle_only.last_task_id) 2000

abbrev hart_high : ℕ → ℕ
hart_high = update (λ _. 1000) (suc idle_only.last_task_id) 4000

abbrev hart_contexts : ℕ → Context
hart_contexts =
    update no_context (suc idle_only.last_task_id) (first_context 512 (closure_at 4000 []))

abbrev HartSpawned : ℕ → Type 0
HartSpawned priority =
    (s' : SchedulerState) × (v : World) × (spawn plain arch 512 [] stack priority start_world
      ≡ (ok (suc idle_only.last_task_id), if idle_only.started then yield_now v else v))
    × (v.scheduler_state ≡ some s')
    × Spawning.Registers (suc idle_only.last_task_id) (hart_block priority) idle_only s'
    × Frames (Holds zeros) s' v.memory hart_contexts hart_low hart_high
    × (load_bytes 0 v.memory (closure_at 4000 []) ≡ [])

spawn-HartFrames_example : HartSpawned 3
spawn-HartFrames_example =
    spawn-HartFrames zeros plain start_world idle_only refl idle_only-Inv 512 [] stack 3 room_16
      (omega arith) (omega arith) no_context (λ _. 500) (λ _. 1000) alone
      (λ u j at. inr (omega arith)) (inr (omega arith)) (omega arith)
      (omega (arith, idle_only_room)) (omega (arith, idle_only_last))

-- Task 1 is there, with priority 5.
hart_spawned : HartSpawned 5
hart_spawned =
    spawn-HartFrames zeros plain start_world idle_only refl idle_only-Inv 512 [] stack 5 room_16
      (omega arith) (omega arith) no_context (λ _. 500) (λ _. 1000) alone
      (λ u j at. inr (omega arith)) (inr (omega arith)) (omega arith)
      (omega (arith, idle_only_room)) (omega (arith, idle_only_last))

abbrev hart_two : SchedulerState
hart_two = hart_spawned.0

abbrev hart_world : World
hart_world = hart_spawned.1

hart_runs : hart_two.current_task ≡ 0
hart_runs = hart_spawned.4.runs ∙ idle_only_current

-- The idle task, interrupted at 900 with that number in every register.
abbrev hart : Hart
hart = record {
  reg = λ _. 900;
  mepc = 640;
  mscratch = 0;
  mstatus = 0x1880;
  mstatus_save = 0;
  main_stack_ptr = 400;
  memory = hart_world.memory;
}

hart-IsWord : IsWord hart
hart-IsWord = record { register = λ r. omega arith; position = omega arith; status = omega arith }

above : hart_low hart_two.current_task ≤ 900 - 128
above = subst (λ (t : ℕ). hart_low t ≤ 772) (sym hart_runs) (rw idle_only_last (omega arith))

below : 900 ≤ hart_high hart_two.current_task
below = subst (λ (t : ℕ). 900 ≤ hart_high t) (sym hart_runs) (rw idle_only_last (omega arith))

abbrev turn : List Instr → Hart
turn is = after (kernel plain hart_world) zeros is (swint_handler 256 hart)

abbrev put_away : ℕ → Context
put_away = update hart_contexts hart_two.current_task (context_of hart)

swint-Switches_example :
    (sp' : ℕ) × (s' : SchedulerState) × (select_task plain 772
        (record hart_world { memory = (turn save_context).memory })
      ≡ (ok sp', save (record hart_world { memory = (turn save_context).memory }) s'))
    × Switches hart_two 772 s' sp'
    × (context (turn switch_context) ≡ (put_away s'.current_task).registers)
    × ((turn switch_context).reg sp ≡ (put_away s'.current_task).psp)
    × Frames (Holds zeros) s' (turn switch_context).memory put_away hart_low hart_high
swint-Switches_example =
    swint-Switches zeros plain hart_world hart_two hart_spawned.3 hart_spawned.4.inv 256 hart refl
      hart-IsWord (omega arith) hart_contexts hart_low hart_high hart_spawned.5 above below
      (no_canary (turn save_context).memory (list_map.get hart_two.tasks hart_two.current_task))
