-- ===== src/Timer/Ops.antt =====
-- `tick`, `wait_task_until`, `wait_until` and `current_time`, and the scheduler's `handle_tick`.
use taskette.Base.{ℕ, Option, none, some, leb, if◌then◌else◌}
use taskette.Heapless.{DequeLib, IndexMapLib, BinaryHeapLib}
use taskette.Outcome.{Outcome, ok, err, panic, not_initialized, timer_full, Features, add_word}
use taskette.Outcome.Run.{M, ◌>>=◌, ◌>>◌, ignore_err}
use taskette.Kernel.{Timer, World, yield_now}
use taskette.Scheduler.Tasks.{block_task, unblock_task, current_task_id}

module _ ⦃h : BinaryHeapLib⦄ where
  -- The clock at `time`: at most one registration rings, the earliest if it is due.
  unfoldable pub ring_at : Timer → ℕ → Option ℕ × Timer
  ring_at timer time = elim (h.peek timer.queue) [
    | none ↦ (none, record timer { time = time })
    | some top ↦
        if leb top.time time
        then (some top.task_id, record { time = time; queue = h.pop timer.queue })
        else (none, record timer { time = time })
  ]

module _ ⦃d : DequeLib⦄ ⦃m : IndexMapLib⦄ ⦃h : BinaryHeapLib⦄ where
  abbrev pub set_timer : World → Timer → World
  set_timer w timer = record w { timer = some timer }

  -- `let _ = unblock_task(top.task_id)`
  abbrev pub wake_rung : Option ℕ × Timer → M World (Unit {0})
  wake_rung (none, timer) w = (ok tt, set_timer w timer)
  wake_rung (some id, timer) w = ignore_err (unblock_task id) (set_timer w timer)

  abbrev pub tick_at : Timer → Outcome ℕ → M World (Unit {0})
  tick_at timer (ok time) w = wake_rung (ring_at timer time) w
  tick_at timer (err e) w = (err e, w)
  tick_at timer panic w = (panic, w)

  abbrev pub tick_from : Features → Option Timer → M World (Unit {0})
  tick_from f none w = (ok tt, w)
  tick_from f (some timer) w = tick_at timer (add_word f 64 timer.time 1) w

  unfoldable pub tick : Features → M World (Unit {0})
  tick f w = tick_from f w.timer w

  unfoldable pub handle_tick : Features → M World (Unit {0})
  handle_tick f = tick f >> λ w. (ok tt, (if f.round_robin then yield_now w else w))

  abbrev pub wait_from : Option Timer → ℕ → ℕ → M World (Unit {0})
  wait_from none time id w = (err not_initialized, w)
  wait_from (some timer) time id w =
      if leb time timer.time
      then (ok tt, w)
      else elim (h.push timer.queue (record { time = time; task_id = id })) [
        | none ↦ (err timer_full, w)
        | some queue ↦ block_task id (set_timer w (record timer { queue = queue }))
      ]

  unfoldable pub wait_task_until : ℕ → ℕ → M World (Unit {0})
  wait_task_until time id w = wait_from w.timer time id w

  unfoldable pub wait_until : ℕ → M World (Unit {0})
  unfolding wait_task_until
  wait_until time = current_task_id >>= wait_task_until time

  unfoldable pub current_time : M World ℕ
  current_time w = elim w.timer [ none ↦ (err not_initialized, w) | some t ↦ (ok t.time, w) ]
