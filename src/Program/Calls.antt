-- ===== src/Program/Calls.antt =====
-- Each call that neither switches nor writes a new stack ends without a panic and keeps what it may not
-- change.
use taskette.Base.{
  ℕ, ◌+◌, ◌^◌, ◌<◌, ◌≡◌, ◌≢◌, refl, ap, sym, subst, ◌∙◌, Bool, true, false, Option, none, some,
  is_some, arith, Option-cases, inl, inr, dec_lt, length, if◌then◌else◌, lt→leb, dec_le,
}
use taskette.Heapless.{DequeLib, IndexMapLib, BinaryHeapLib}
use taskette.Outcome.{ok, err, Features, not_initialized}
use taskette.Outcome.Run.{continue}
use taskette.Kernel.{
  TimerRegistry, SchedulerState, Timer, World, save, yield_now, idle_task_id, max_timer_regs,
}
use taskette.Scheduler.Tasks.{Arch, block_task, unblock_task, current_task_id, finish_task}
use taskette.Scheduler.Invariant.{Inv}
use taskette.Scheduler.Calls.{with_state-run, block_task-cases, finish_task-Removes}
use taskette.Timer.Ops.{ring_at, set_timer, wake_rung, tick, handle_tick, wait_until}
use taskette.Timer.Waiting.{wait_until-run, wait_until-past, wait_until-full, tick-run}
use taskette.Memory.{Memory}
use taskette.Program.Keeping.{
  Keeps, SamePlaces-self, saved-Keeps, requested-Keeps, Blocks-SamePlaces, Unblocks-SamePlaces,
  Removes-SamePlaces, IsQuiet,
}
use taskette.Program.{
  Call, switch_at, wake_up, sleep_until, on_tick, block_self, return_self, spawn_task, perform,
  Settled, Allowed,
}
use taskette.Program.Ending.{Kept, ignored-Ends, then-Ends, unblock_task-Ends}

module _ ⦃d : DequeLib⦄ ⦃m : IndexMapLib⦄ ⦃h : BinaryHeapLib⦄ where
  module _ (w : World) (s : SchedulerState) (timer : Timer) (here : w.scheduler_state ≡ some s)
      (clock : w.timer ≡ some timer) (inv : Inv s) where
    unchanged : Keeps w.memory s (save w s)
    unchanged = saved-Keeps w s timer clock s inv (SamePlaces-self s)

    unblock_task-Kept : Settled s → (t : ℕ) → Kept w.memory s (unblock_task t w)
    unblock_task-Kept settled t =
        unblock_task-Ends w s timer here clock inv (Keeps w.memory s) settled t
          (λ absent. unchanged) (λ i there ready. unchanged)
          (λ i s' there blocked un.
            requested-Keeps w s timer clock s' un.inv (Unblocks-SamePlaces un))

    block_task-Kept : (t : ℕ) → t ≢ idle_task_id → Kept w.memory s (block_task t w)
    block_task-Kept t not_idle = elim (block_task-cases w s here inv t not_idle) [
      | inl (absent, runs) ↦ subst (Kept w.memory s) (sym runs) ((λ e. cc), unchanged)
      | inr (inl (i, there, blocked, runs)) ↦
          subst (Kept w.memory s) (sym runs) ((λ e. cc), unchanged)
      | inr (inr (i, there, ready, (s', runs, bl))) ↦
          subst (Kept w.memory s) (sym runs)
            ((λ e. cc), requested-Keeps w s timer clock s' bl.inv (Blocks-SamePlaces bl))
    ]

  requested_if :
      (memory : Memory) (s : SchedulerState) (b : Bool) (v : World)
      → Keeps memory s v
      → Keeps memory s (if b then yield_now v else v)
  requested_if memory s false v k = k
  requested_if memory s true v k = record {
    good = record {
      state = k.good.state;
      here = k.good.here;
      inv = k.good.inv;
      timer = k.good.timer;
      clock = k.good.clock;
    };
    same_memory = k.same_memory;
    places = k.places;
  }

  module _ (w : World) (s : SchedulerState) (timer : Timer) (here : w.scheduler_state ≡ some s)
      (clock : w.timer ≡ some timer) (inv : Inv s) where
    wake_rung-Kept : Settled s → (rung : Option ℕ × Timer) → Kept w.memory s (wake_rung rung w)
    wake_rung-Kept settled (none, t') = (
      (λ e. cc),
      record {
        good = record { state = s; here = here; inv = inv; timer = t'; clock = refl };
        same_memory = refl;
        places = SamePlaces-self s;
      },
    )
    wake_rung-Kept settled (some id, t') =
        ignored-Ends (Keeps w.memory s) w (unblock_task id (set_timer w t'))
          (unblock_task-Kept (set_timer w t') s t' here refl inv settled id)

    handle_tick-Kept :
        (f : Features) → Settled s → timer.time + 1 < 2 ^ 64 → Kept w.memory s (handle_tick f w)
    unfolding handle_tick
    handle_tick-Kept f settled small =
        then-Ends (Keeps w.memory s) (λ v. if f.round_robin then yield_now v else v) (tick f w)
          (λ v kept. requested_if w.memory s f.round_robin v kept)
          (subst (Kept w.memory s) (sym (tick-run w s timer here clock inv f small))
            (wake_rung-Kept settled (ring_at timer (timer.time + 1))))

    wait_until-Kept :
        (time : ℕ) → s.current_task ≢ idle_task_id → Kept w.memory s (wait_until time w)
    wait_until-Kept time not_idle = elim (dec_le time timer.time) [
      | yes past ↦
          subst (Kept w.memory s) (sym (wait_until-past w s timer here clock inv time past))
            ((λ e. cc), unchanged w s timer here clock inv)
      | no still ↦ elim (dec_lt (length (h.items timer.queue)) max_timer_regs) [
        | no full ↦
            subst (Kept w.memory s)
              (sym (
                wait_until-full w s timer here clock inv time (omega arith)
                  (omega (arith, h.length-items timer.queue))))
              ((λ e. cc), unchanged w s timer here clock inv)
        | yes room ↦
            let registered : TimerRegistry = record { time = time; task_id = s.current_task } in
            let (queue, pushed, tallies) = h.push-room timer.queue registered room in
            subst (Kept w.memory s)
              (sym (
                wait_until-run w s timer here clock inv time
                ∙ rw (lt→leb time timer.time (omega arith), pushed) refl))
              (block_task-Kept (set_timer (save w s) (record timer { queue = queue })) s
                (record timer { queue = queue }) refl refl inv s.current_task not_idle)
      ]
    ]

    current_task_id-run : current_task_id w ≡ (ok s.current_task, save w s)
    unfolding current_task_id
    current_task_id-run =
        with_state-run w s here inv (err not_initialized)
          (λ (t : SchedulerState). (ok t.current_task, t)) refl

    block_self-Kept :
        s.current_task ≢ idle_task_id → Kept w.memory s (continue block_task (current_task_id w))
    block_self-Kept not_idle =
        subst (Kept w.memory s) (sym (ap (continue block_task) current_task_id-run))
          (block_task-Kept (save w s) s timer refl clock inv s.current_task not_idle)

    finish_task-Kept :
        s.current_task ≢ idle_task_id
        → is_some (m.get s.tasks s.current_task) ≡ true
        → Kept w.memory s (finish_task w)
    finish_task-Kept not_idle there = elim (Option-cases (m.get s.tasks s.current_task)) [
      | inl absent ↦ absurd (ground (arith, absent, there))
      | inr (i, at) ↦
          let (s', runs, rem) = finish_task-Removes w s here inv i at not_idle in
          subst (Kept w.memory s) (sym runs)
            ((λ e. cc), saved-Keeps w s timer clock s' rem.inv (Removes-SamePlaces rem))
    ]

    pub perform-Kept :
        (f : Features) (arch : Arch) (c : Call)
        → IsQuiet c
        → Allowed f w s timer c
        → Kept w.memory s (perform f arch c w)
    unfolding perform
    perform-Kept f arch (switch_at sp) quiet intact = absurd quiet
    perform-Kept f arch (spawn_task pc arg stack priority) quiet allowed = absurd quiet
    perform-Kept f arch (wake_up t) quiet settled =
        unblock_task-Kept w s timer here clock inv settled t
    perform-Kept f arch (sleep_until time) quiet (settled, not_idle) = wait_until-Kept time not_idle
    perform-Kept f arch on_tick quiet (settled, small) = handle_tick-Kept f settled small
    perform-Kept f arch block_self quiet (settled, not_idle) = block_self-Kept not_idle
    perform-Kept f arch return_self quiet (settled, not_idle, there) =
        finish_task-Kept not_idle there
