-- ===== src/Examples/Multitasking.antt =====
-- A task that is spawned, and the first switch to it, at a concrete state.
use taskette.Base.{
  ℕ, ◌+◌, ◌-◌, ◌≤◌, ◌≡◌, refl, sym, subst, ◌∙◌, inr, Option, none, some, List, [], arith, false,
  update, suc, if◌then◌else◌,
}
use taskette.Heapless.Lists.{list_deque, list_map, list_heap}
use taskette.Memory.{Memory, load_words}
use taskette.Machine.Frames.{load_bytes}
use taskette.Machine.{padded}
use taskette.Outcome.{ok}
use taskette.Kernel.{World, TaskInfo, SchedulerState, save, yield_now}
use taskette.Scheduler.Tasks.{spawn}
use taskette.Scheduler.Switch.{select_task}
use taskette.Scheduler.Invariant.Storing.{CanaryOkOf}
use taskette.Scheduler.Invariant.Switching.{Switches}
use taskette.Scheduler.Invariant.Spawning
use taskette.Cortex.PendSv.{Cpu, Instr, pend_sv, sp, v7m_save, v7m_restore}
use taskette.Cortex.PendSv.Contexts.{after}
use taskette.Cortex.Stack.{arch, hardware_words, from_pc_and_r0}
use taskette.Contexts.{Context, alone-Frames, kernel}
use taskette.Cortex.Multitasking.{Holds, CpuFrames, IsRunnable, context_of}
use taskette.Cortex.Multitasking.Variants.{v7m-Handler, core_context, first_context}
use taskette.Cortex.Multitasking.Spawning.{spawn-Frames, block}
use taskette.Cortex.Multitasking.Switching.{pend_sv-Switches}
use taskette.Examples.{
  idle_only, idle_only-Inv, idle_only_room, idle_only_last, idle_only_current, idle_clock, world,
  plain, blank, stack,
}

abbrev pub zeros : ℕ → ℕ
zeros _ = 0

-- The idle task runs on `[500, 1000)`, and has no frame yet.
abbrev pub no_context : ℕ → Context
no_context _ = record { registers = []; psp = 0; size = 0 }

pub idle_only-Frames :
    CpuFrames (v7m-Handler zeros) idle_only blank no_context (λ _. 500) (λ _. 1000)
idle_only-Frames =
    alone-Frames (Holds (v7m-Handler zeros)) idle_only blank no_context (λ _. 500) (λ _. 1000)
      idle_only-Inv idle_only_current idle_only_last

abbrev pub start_world : World
start_world = world idle_only idle_clock

roomy : stack.start + 16 + padded 8 0 + 72 ≤ stack.end
unfolding padded
roomy = omega arith

-- The block of task 1, which is spawned on `stack`.
abbrev first_block : ℕ → TaskInfo
first_block priority =
    block zeros plain 0 start_world idle_only refl idle_only-Inv 512 [] stack priority roomy
      (omega arith) refl (omega arith)

abbrev low : ℕ → ℕ
low = update (λ _. 500) (suc idle_only.last_task_id) 2000

abbrev high : ℕ → ℕ
high = update (λ _. 1000) (suc idle_only.last_task_id) 4000

abbrev contexts : ℕ → ℕ → Context
contexts priority =
    update no_context (suc idle_only.last_task_id)
      (first_context zeros (first_block priority).stack_pointer)

abbrev Spawned : ℕ → Type 0
Spawned priority =
    (s' : SchedulerState) × (v : World) × (spawn plain (arch 0) 512 [] stack priority start_world
      ≡ (ok (suc idle_only.last_task_id), if idle_only.started then yield_now v else v))
    × (v.scheduler_state ≡ some s')
    × Spawning.Registers (suc idle_only.last_task_id) (first_block priority) idle_only s'
    × CpuFrames (v7m-Handler zeros) s' v.memory (contexts priority) low high
    × (load_words 8 v.memory ((first_block priority).stack_pointer + 40)
        ≡ hardware_words (from_pc_and_r0 512 ((first_block priority).stack_pointer + 72)))
    × (load_bytes 0 v.memory ((first_block priority).stack_pointer + 72) ≡ [])

spawn-Frames_example : Spawned 3
spawn-Frames_example =
    spawn-Frames zeros plain 0 start_world idle_only refl idle_only-Inv 512 [] stack 3 roomy
      (omega arith) refl (omega arith) no_context (λ _. 500) (λ _. 1000) idle_only-Frames
      (λ u j at. inr (omega arith)) (inr (omega arith)) (omega arith)
      (omega (arith, idle_only_room)) (omega (arith, idle_only_last))

-- Task 1 is there, with priority 5.
spawned : Spawned 5
spawned =
    spawn-Frames zeros plain 0 start_world idle_only refl idle_only-Inv 512 [] stack 5 roomy
      (omega arith) refl (omega arith) no_context (λ _. 500) (λ _. 1000) idle_only-Frames
      (λ u j at. inr (omega arith)) (inr (omega arith)) (omega arith)
      (omega (arith, idle_only_room)) (omega (arith, idle_only_last))

abbrev two : SchedulerState
two = spawned.0

abbrev two_world : World
two_world = spawned.1

two-Registers : Spawning.Registers (suc idle_only.last_task_id) (first_block 5) idle_only two
two-Registers = spawned.4

two_runs : two.current_task ≡ 0
two_runs = two-Registers.runs ∙ idle_only_current

-- The idle task, interrupted at 900 with 7 in every register.
abbrev interrupted : Cpu
interrupted = record {
  reg = λ _. 7;
  fp = λ _. 7;
  psp = 900;
  zero_flag = false;
  memory = two_world.memory;
}

interrupted-IsRunnable : IsRunnable (v7m-Handler zeros) interrupted
interrupted-IsRunnable = record {
  room = omega arith;
  small = omega arith;
  word = λ r. omega arith;
  fp_word = λ r. omega arith;
}

pub no_canary : (memory : Memory) (o : Option TaskInfo) → CanaryOkOf plain memory o
no_canary memory none = tt
no_canary memory (some i) = λ ready. refl

above : low two.current_task ≤ 900 - 40
above = subst (λ (t : ℕ). low t ≤ 860) (sym two_runs) (rw idle_only_last (omega arith))

below : 900 ≤ high two.current_task
below = subst (λ (t : ℕ). 900 ≤ high t) (sym two_runs) (rw idle_only_last (omega arith))

abbrev turn : List Instr → Cpu
turn is = after (kernel plain two_world) zeros is interrupted

abbrev put_away : ℕ → Context
put_away = update (contexts 5) two.current_task (context_of (v7m-Handler zeros) interrupted)

pend_sv-Switches_example :
    (sp' : ℕ) × (s' : SchedulerState) × (select_task plain 860
        (record two_world { memory = (turn v7m_save).memory })
      ≡ (ok sp', save (record two_world { memory = (turn v7m_save).memory }) s'))
    × Switches two 860 s' sp'
    × (core_context (turn (pend_sv v7m_save v7m_restore)) ≡ (put_away s'.current_task).registers)
    × ((turn (pend_sv v7m_save v7m_restore)).psp ≡ (put_away s'.current_task).psp)
    × ((turn (pend_sv v7m_save v7m_restore)).reg sp ≡ 7)
    × CpuFrames
        (v7m-Handler zeros)
        s'
        (turn (pend_sv v7m_save v7m_restore)).memory
        put_away
        low
        high
pend_sv-Switches_example =
    pend_sv-Switches (v7m-Handler zeros) plain two_world two spawned.3 two-Registers.inv interrupted
      refl interrupted-IsRunnable (contexts 5) low high spawned.5 above below
      (no_canary (turn v7m_save).memory (list_map.get two.tasks two.current_task))
