-- ===== src/Program/Sleeping.antt =====
-- A task that sleeps until a time, and the interrupts of the timer: `Tick` is one of them, `Ticks`
-- are those that wake it.
pub mod Tick
pub mod Ticks
use taskette.Base.{
  ℕ, zero, suc, ◌+◌, ◌^◌, ◌≤◌, ◌<◌, ◌≡◌, refl, ap, sym, subst, ◌∙◌, Bool, true, false, Option, none,
  some, arith, ◌==◌, ◌&&◌, ◌⊎◌, inl, inr, tally, Option-cases, Bool-cases, some-inj, eqb→eq, leb,
  List, [], ◌∷◌, if◌then◌else◌,
}
use taskette.Heapless.{DequeLib, IndexMapLib, BinaryHeapLib}
use taskette.Outcome.{Outcome, ok, err, panic, Features}
use taskette.Outcome.Run.{M, continue, ignore_err, ◌>>◌}
use taskette.Kernel.{
  TaskInfo, TimerRegistry, Timer, SchedulerState, World, save, yield_now, max_timer_regs,
}
use taskette.Scheduler.Tasks.{unblock_task}
use taskette.Scheduler.Invariant.{Inv}
use taskette.Scheduler.Invariant.Blocking.{Unblocks}
use taskette.Timer.Ops.{ring_at, set_timer, wake_rung, tick, handle_tick}
use taskette.Timer.Waiting.{tick-run}
use taskette.Timer.Lateness.{due, due-ring_at, after_ticks, due-after_ticks_all}
use taskette.Program.{Settled}

-- The registration of task `t` for `time`.
abbrev pub is_for : ℕ → ℕ → TimerRegistry → Bool
is_for t time r = r.time == time && r.task_id == t

module _ ⦃d : DequeLib⦄ ⦃m : IndexMapLib⦄ ⦃h : BinaryHeapLib⦄ where
  -- The interrupts of the timer, one after the other, with no other call in between.
  unfoldable pub handle_ticks : Features → ℕ → M World (Unit {0})
  handle_ticks f zero w = (ok tt, w)
  handle_ticks f (suc n) w = (ignore_err (handle_tick f) >> handle_ticks f n) w

module _ ⦃d : DequeLib⦄ ⦃m : IndexMapLib⦄ ⦃h : BinaryHeapLib⦄ (t : ℕ) where
  -- The task is there, and not blocked.
  pub record IsAwake (s : SchedulerState) : Type 0 where
    pub info : TaskInfo
    pub there : m.get s.tasks t ≡ some info
    pub ready : info.blocked ≡ false

module _ ⦃d : DequeLib⦄ ⦃m : IndexMapLib⦄ ⦃h : BinaryHeapLib⦄ (t time : ℕ) where
  -- The registration is there, and the task is blocked.
  pub record IsAsleep (timer : Timer) (s : SchedulerState) : Type 0 where
    pub info : TaskInfo
    pub there : m.get s.tasks t ≡ some info
    pub blocked : info.blocked ≡ true
    pub registered : 0 < tally (is_for t time) (h.items timer.queue)
