-- ===== src/Examples/Kernel.antt =====
-- The theorems on the scheduler, run at concrete states.
use taskette.Base.{
  ℕ, suc, ◌<◌, ◌≡◌, refl, ◌⊎◌, true, false, none, some, [], ◌∷◌, arith, if◌then◌else◌, count,
}
use taskette.Heapless.Lists.{list_deque, list_map, list_heap}
use taskette.Outcome.{ok, err, not_found}
use taskette.Kernel.{TaskInfo, SchedulerState, save, yield_now}
use taskette.Scheduler.Queues.Effects.{line}
use taskette.Scheduler.Tasks.{block_in, unblock_in, block_task, unblock_task, finish_task, spawn}
use taskette.Scheduler.Switch.{select_task}
use taskette.Scheduler.Invariant.{Inv}
use taskette.Scheduler.Invariant.Blocking.{Blocks, Unblocks}
use taskette.Scheduler.Invariant.Removing.{Removes}
use taskette.Scheduler.Invariant.Switching.{Switches, select_task-Switches}
use taskette.Scheduler.Calls.{block_task-cases, unblock_task-cases, finish_task-Removes}
use taskette.Scheduler.Calls.Spawn.{spawn-Registers}
use taskette.Scheduler.RoundRobin.{switch_all, switch_all-turn}
use taskette.Scheduler.Invariant.Spawning.{Registers}
use taskette.Scheduler.EarlyWake.{early_wake}
use taskette.Examples.{
  two_tasks, two_tasks-Inv, two_tasks-CanaryOk, running, running-Inv, running_current, running_runs,
  asleep, asleep-Inv, asleep_current, worker, still, stack, running_room, running_last,
  two_tasks-Top, two_tasks_line, plain, world, clock,
}

select_task-Switches_example :
    (sp' : ℕ) × (s' : SchedulerState) × (select_task plain 9000 (world two_tasks clock)
      ≡ (ok sp', save (world two_tasks clock) s'))
    × Switches two_tasks 9000 s' sp'
select_task-Switches_example =
    select_task-Switches plain (world two_tasks clock) two_tasks 9000 refl two_tasks-Inv
      two_tasks-CanaryOk

block_task-cases_example :
    ((list_map.get running.tasks 2 ≡ none)
      × (block_task 2 (world running clock) ≡ (err not_found, save (world running clock) running)))
    ⊎ ((i : TaskInfo) × (list_map.get running.tasks 2 ≡ some i)
        × (i.blocked ≡ true)
        × (block_task 2 (world running clock) ≡ (ok tt, save (world running clock) running)))
    ⊎ ((i : TaskInfo) × (list_map.get running.tasks 2 ≡ some i)
        × (i.blocked ≡ false)
        × ((s' : SchedulerState) × (block_task 2 (world running clock)
              ≡ (ok tt, yield_now (save (world running clock) s')))
            × Blocks 2 running s'))
block_task-cases_example =
    block_task-cases (world running clock) running refl running-Inv 2 (λ e. absurd (omega arith))

unblock_task-cases_example :
    ((list_map.get asleep.tasks 2 ≡ none)
      × (unblock_task 2 (world asleep clock) ≡ (err not_found, save (world asleep clock) asleep)))
    ⊎ ((i : TaskInfo) × (list_map.get asleep.tasks 2 ≡ some i)
        × (i.blocked ≡ false)
        × (unblock_task 2 (world asleep clock) ≡ (ok tt, save (world asleep clock) asleep)))
    ⊎ ((s' : SchedulerState) × (unblock_task 2 (world asleep clock)
          ≡ (ok tt, yield_now (save (world asleep clock) s')))
        × Unblocks 2 asleep s')
unblock_task-cases_example =
    unblock_task-cases (world asleep clock) asleep refl asleep-Inv 2
      (λ e. absurd (omega (arith, asleep_current)))

finish_task-Removes_example :
    (s' : SchedulerState) × (finish_task (world running clock)
      ≡ (ok tt, save (world running clock) s'))
    × Removes running.current_task running s'
finish_task-Removes_example =
    finish_task-Removes (world running clock) running refl running-Inv worker running_runs
      (λ e. absurd (omega (arith, running_current)))

early_wake_example :
    (s₁ s₂ : SchedulerState) × (block_in running.current_task running ≡ (ok true, s₁))
    × (unblock_in running.current_task s₁ ≡ (ok true, s₂))
    × (s₂.current_task ≡ running.current_task)
    × (0 < count running.current_task (line s₂.queues worker.priority))
    × ¬ Inv s₂
early_wake_example =
    early_wake running worker running-Inv running_runs refl
      (λ e. absurd (omega (arith, running_current)))

spawn-Registers_example :
    (s' : SchedulerState) × (spawn plain still 500 [] stack 7 (world running clock) ≡ (
      ok (suc running.last_task_id),
      if running.started
          then yield_now (save (world running clock) s')
          else save (world running clock) s',
    ))
    × Registers
        (suc running.last_task_id)
        (record { stack_pointer = 4000; priority = 7; blocked = false; stack_limit = 2000 })
        running
        s'
spawn-Registers_example =
    spawn-Registers (world running clock) running refl running-Inv plain still 500 [] stack 7
      (omega arith) (omega (arith, running_room)) (omega (arith, running_last))

switch_all-turn_example :
    (s' : SchedulerState) × (switch_all plain (λ _. 0) (9000 ∷ 9100 ∷ []) two_tasks ≡ ok s')
    × Inv s'
    × (s'.current_task ≡ 2)
switch_all-turn_example =
    switch_all-turn plain (λ _. 0) 5 (omega arith) (1 ∷ []) 2 [] (9000 ∷ 9100 ∷ []) two_tasks
      two_tasks-Inv (λ t i at. refl) two_tasks-Top two_tasks_line refl
