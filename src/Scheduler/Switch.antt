-- ===== src/Scheduler/Switch.antt =====
-- `select_task`, which the context switch calls with the stack pointer of the task that it leaves,
-- and `handle_tick`.
use taskette.Base.{ℕ, ◌&&◌, Option, none, some, if◌then◌else◌}
use taskette.Base.Bits.{leading_zeros}
use taskette.Heapless.{DequeLib, IndexMapLib, BinaryHeapLib}
use taskette.Memory.{Memory}
use taskette.Outcome.{Outcome, ok, err, panic, ◌>>=◌, expect, Features, sub_word}
use taskette.Outcome.Run.{M}
use taskette.Kernel.{TaskInfo, SchedulerState, Queues, World, save}
use taskette.Scheduler.Queues.{enqueue_task, dequeue_task}
use taskette.Scheduler.Canary.{check_stack_canary}

module _ ⦃d : DequeLib⦄ ⦃m : IndexMapLib⦄ where
  -- The original task goes to the end of its queue, if it exists and is not blocked.
  unfoldable pub requeue : Features → Memory → SchedulerState → TaskInfo → Outcome (Queues × ℕ)
  requeue f memory s t =
      if t.blocked
      then ok (s.queues, s.priority_map)
      else if f.stack_canary && check_stack_canary memory t.stack_limit
      then panic
      else expect (enqueue_task s.queues s.priority_map s.current_task t.priority)

  -- The first half of `select_task`: the original task is stored.
  unfoldable pub store_original : Features → Memory → SchedulerState → ℕ → Outcome SchedulerState
  store_original f memory s orig_sp = elim (m.get s.tasks s.current_task) [
    | none ↦ ok s
    | some t ↦ (do
      (queues, map) ← requeue f memory s t
      ok (record s {
        tasks = m.put s.tasks s.current_task (record t { stack_pointer = orig_sp });
        queues = queues;
        priority_map = map;
      }))
  ]

  -- The second half: the first task of the highest priority becomes the current one.
  unfoldable pub take_next : SchedulerState → Option ℕ × Queues × ℕ → Outcome (ℕ × SchedulerState)
  take_next s (none, queues, map) = panic
  take_next s (some next, queues, map) = elim (m.get s.tasks next) [
    | none ↦ panic
    | some t ↦
        ok (t.stack_pointer, record s { queues = queues; priority_map = map; current_task = next })
  ]

  unfoldable pub choose_next : Features → SchedulerState → Outcome (ℕ × SchedulerState)
  unfolding take_next
  choose_next f s = do
    highest ← sub_word f 32 31 (leading_zeros 32 s.priority_map)
    taken ← dequeue_task s.queues s.priority_map highest
    take_next s taken

  -- The body of the critical section.
  unfoldable pub switch : Features → Memory → SchedulerState → ℕ → Outcome (ℕ × SchedulerState)
  unfolding store_original choose_next requeue
  switch f memory s orig_sp = do s' ← store_original f memory s orig_sp; choose_next f s'

module _ ⦃d : DequeLib⦄ ⦃m : IndexMapLib⦄ ⦃h : BinaryHeapLib⦄ where
  abbrev pub switched : World → Outcome (ℕ × SchedulerState) → Outcome ℕ × World
  switched w (ok (sp, s)) = (ok sp, save w s)
  switched w (err e) = (err e, w)
  switched w panic = (panic, w)

  -- The state of a call that panics is not looked at again.
  unfoldable pub select_task : Features → ℕ → M World ℕ
  select_task f orig_sp w = elim w.scheduler_state [
    | none ↦ (panic, w)
    | some s ↦ switched w (switch f w.memory s orig_sp)
  ]
