-- ===== src/Scheduler/Calls/Spawn.antt =====
-- `spawn` at the state of the program: every branch, in a good state.
use taskette.Base.{
  ℕ, suc, ◌^◌, ◌≤◌, ◌<◌, ◌≡◌, refl, ap, Bool, true, false, some, List, arith, if◌then◌else◌, le→ltb,
  lt→ltb, ◌∙◌, length,
}
use taskette.Heapless.{DequeLib, IndexMapLib, BinaryHeapLib}
use taskette.Memory.{Memory}
use taskette.Outcome.{Outcome, ok, err, Features, task_full, not_initialized, invalid_priority}
use taskette.Outcome.Run.{continue}
use taskette.Kernel.{
  TaskInfo, SchedulerState, World, save, yield_now, max_priority, max_num_tasks, usize_bits,
}
use taskette.Scheduler.Canary.{fill_stack_canary}
use taskette.Scheduler.Tasks.{
  Arch, StackRange, register_task, saved, enter, with_state, spawn, preempt,
}
use taskette.Scheduler.Invariant.{Inv}
use taskette.Scheduler.Invariant.Spawning.{Registers, register_task-Registers, register_task-full}

module _ ⦃d : DequeLib⦄ ⦃m : IndexMapLib⦄ ⦃h : BinaryHeapLib⦄ where
  -- What a request for a switch leaves alone.
  pub unpend :
      {X : Type 0} (g : World → X)
      → ((v : World) → g (yield_now v) ≡ g v)
      → (b : Bool) (v : World) → g (if b then yield_now v else v) ≡ g v
  unpend g same true v = same v
  unpend g same false v = refl

  module _ (w : World) (s : SchedulerState) (here : w.scheduler_state ≡ some s) (inv : Inv s) where
    module _ (f : Features) (arch : Arch) (pc : ℕ) (arg : List ℕ) (stack : StackRange)
        (priority : ℕ) where
      -- The stack pointer and the memory after the stack is prepared.
      abbrev pub prepared : ℕ × Memory
      prepared =
          arch.init_stack
            (if f.stack_canary then fill_stack_canary w.memory stack.start else w.memory) stack.end
            pc arg

      abbrev pub new_block : TaskInfo
      new_block = record {
        stack_pointer = prepared.0;
        priority = priority;
        blocked = false;
        stack_limit = stack.start;
      }

      abbrev pub with_stack : World
      with_stack = record w { memory = prepared.1 }

      entered :
          {r : Outcome ℕ × SchedulerState}
          → register_task new_block s ≡ r
          → with_state (err not_initialized) (register_task new_block) with_stack
            ≡ saved with_stack r
      entered e =
          ap (enter (err not_initialized) (register_task new_block) with_stack) here
          ∙ ap (saved with_stack) e

      -- In a good state:
      -- A good priority, room in the table and an id that has not wrapped: the task is created
      -- with the prepared stack, and a switch is requested if the scheduler has started.
      pub spawn-Registers :
          priority ≤ max_priority
          → length (m.keys s.tasks) < max_num_tasks
          → suc s.last_task_id < 2 ^ usize_bits
          → (s' : SchedulerState) × (spawn f arch pc arg stack priority w ≡ (
            ok (suc s.last_task_id),
            if s.started then yield_now (save with_stack s') else save with_stack s',
          ))
            × Registers (suc s.last_task_id) new_block s s'
      unfolding spawn
      spawn-Registers small room unwrapped =
          let (s', runs, registers) =
            register_task-Registers s inv new_block unwrapped refl (omega arith) room in
          (
            s',
            rw (le→ltb max_priority priority small) (
                ap (continue preempt) (entered runs)
                ∙ preempt_cases s' s.started registers.started),
            registers,
          )
        where
          preempt_cases :
              (s' : SchedulerState) (b : Bool)
              → s'.started ≡ b
              → preempt (suc s.last_task_id) (save with_stack s') ≡ (
                ok (suc s.last_task_id),
                if b then yield_now (save with_stack s') else save with_stack s',
              )
          preempt_cases s' true e = rw e
          preempt_cases s' false e = rw e

      -- A full table refuses the task; the stack stays prepared, and an id is used up.
      pub spawn-full :
          priority ≤ max_priority
          → length (m.keys s.tasks) ≡ max_num_tasks
          → suc s.last_task_id < 2 ^ usize_bits
          → (s' : SchedulerState) × (spawn f arch pc arg stack priority w
              ≡ (err task_full, save with_stack s'))
            × Inv s'
            × (s'.tasks ≡ s.tasks)
            × (s'.queues ≡ s.queues)
      unfolding spawn
      spawn-full small full unwrapped =
          let (s', runs, good, tasks, queues) = register_task-full s inv new_block unwrapped full in
          (
            s',
            rw (le→ltb max_priority priority small) (ap (continue preempt) (entered runs)),
            good,
            tasks,
            queues,
          )

      -- A priority out of range is refused before anything is done.
      pub spawn_bad_priority :
          max_priority < priority → spawn f arch pc arg stack priority w ≡ (err invalid_priority, w)
      unfolding spawn
      spawn_bad_priority big = rw (lt→ltb max_priority priority big)
