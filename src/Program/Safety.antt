-- ===== src/Program/Safety.antt =====
-- No call panics, and every state that calls reach from a good one is good.
use taskette.Base.{
  ℕ, suc, ◌^◌, ◌<◌, ◌≡◌, refl, sym, subst, ◌∙◌, Bool, true, false, some, List, arith, some-inj,
  dec_lt, length, if◌then◌else◌, dec_le,
}
use taskette.Heapless.{DequeLib, IndexMapLib, BinaryHeapLib}
use taskette.Outcome.{Features}
use taskette.Kernel.{SchedulerState, Timer, World, usize_bits, max_priority, max_num_tasks}
use taskette.Scheduler.Tasks.{Arch, StackRange, spawn}
use taskette.Scheduler.Switch.{select_task}
use taskette.Scheduler.Invariant.{Inv}
use taskette.Scheduler.Invariant.Storing.{CanaryOk}
use taskette.Scheduler.Invariant.Switching.{select_task-Switches}
use taskette.Scheduler.Calls.Spawn.{spawn-Registers, spawn-full, spawn_bad_priority}
use taskette.Program.Ending.{Fine, Kept-Fine, then-Ends}
use taskette.Program.Calls.{perform-Kept}
use taskette.Program.{
  Call, switch_at, wake_up, sleep_until, on_tick, block_self, return_self, spawn_task, perform,
  Allowed, Good, Step, call, Reach, start, later,
}

module _ ⦃d : DequeLib⦄ ⦃m : IndexMapLib⦄ ⦃h : BinaryHeapLib⦄ where
  either-Good : (b : Bool) (u v : World) → Good u → Good v → Good (if b then u else v)
  either-Good true u v yes_good no_good = yes_good
  either-Good false u v yes_good no_good = no_good

  module _ (w : World) (s : SchedulerState) (timer : Timer) (here : w.scheduler_state ≡ some s)
      (clock : w.timer ≡ some timer) (inv : Inv s) where
    spawn-Fine :
        (f : Features) (arch : Arch) (pc : ℕ) (arg : List ℕ) (stack : StackRange) (priority : ℕ)
        → suc s.last_task_id < 2 ^ usize_bits
        → Fine (spawn f arch pc arg stack priority w)
    spawn-Fine f arch pc arg stack priority unwrapped = elim (dec_le priority max_priority) [
      | no big ↦
          subst Fine
            (sym (spawn_bad_priority w s here inv f arch pc arg stack priority (omega arith)))
            ((λ e. cc), record { state = s; here = here; inv = inv; timer = timer; clock = clock })
      | yes small ↦ elim (dec_lt (length (m.keys s.tasks)) max_num_tasks) [
        | no full ↦
            let (s', runs, good, tasks, queues) =
              spawn-full w s here inv f arch pc arg stack priority small
                (omega (arith, m.length-keys s.tasks)) unwrapped in
            subst Fine (sym runs) (
              (λ e. cc),
              record { state = s'; here = refl; inv = good; timer = timer; clock = clock },
            )
        | yes room ↦
            let (s', runs, made) =
              spawn-Registers w s here inv f arch pc arg stack priority small room unwrapped in
            subst Fine (sym runs) (
              (λ e. cc),
              either-Good s.started _ _
                  (record { state = s'; here = refl; inv = made.inv; timer = timer; clock = clock })
                  (record {
                    state = s';
                    here = refl;
                    inv = made.inv;
                    timer = timer;
                    clock = clock;
                  }),
            )
      ]
    ]

    select_task-Fine : (f : Features) (sp : ℕ) → CanaryOk f w.memory s → Fine (select_task f sp w)
    select_task-Fine f sp intact =
        let (sp', s', runs, sw) = select_task-Switches f w s sp here inv intact in
        subst Fine (sym runs) (
          (λ e. cc),
          record { state = s'; here = refl; inv = sw.inv; timer = timer; clock = clock },
        )

    -- In a good state no call that is allowed panics, and the state after it is good.
    pub perform-Fine :
        (f : Features) (arch : Arch) (c : Call) → Allowed f w s timer c → Fine (perform f arch c w)
    unfolding perform
    perform-Fine f arch (switch_at sp) intact =
        then-Ends Good (λ v. v) (select_task f sp w) (λ v good. good) (select_task-Fine f sp intact)
    perform-Fine f arch (spawn_task pc arg stack priority) (settled, unwrapped) =
        then-Ends Good (λ v. v) (spawn f arch pc arg stack priority w) (λ v good. good)
          (spawn-Fine f arch pc arg stack priority unwrapped)
    perform-Fine f arch (wake_up t) allowed =
        Kept-Fine w.memory s (perform f arch (wake_up t) w)
          (perform-Kept w s timer here clock inv f arch (wake_up t) tt allowed)
    perform-Fine f arch (sleep_until time) allowed =
        Kept-Fine w.memory s (perform f arch (sleep_until time) w)
          (perform-Kept w s timer here clock inv f arch (sleep_until time) tt allowed)
    perform-Fine f arch on_tick allowed =
        Kept-Fine w.memory s (perform f arch on_tick w)
          (perform-Kept w s timer here clock inv f arch on_tick tt allowed)
    perform-Fine f arch block_self allowed =
        Kept-Fine w.memory s (perform f arch block_self w)
          (perform-Kept w s timer here clock inv f arch block_self tt allowed)
    perform-Fine f arch return_self allowed =
        Kept-Fine w.memory s (perform f arch return_self w)
          (perform-Kept w s timer here clock inv f arch return_self tt allowed)

  -- The same, for the state that a good one is known to hold.
  Good-Fine :
      (f : Features) (arch : Arch) (w : World) (g : Good w) (s : SchedulerState) (timer : Timer)
      → w.scheduler_state ≡ some s
      → w.timer ≡ some timer
      → (c : Call) → Allowed f w s timer c
      → Fine (perform f arch c w)
  Good-Fine f arch w g s timer here clock c allowed =
      perform-Fine w s timer here clock (subst Inv (some-inj g.state s (sym g.here ∙ here)) g.inv) f
        arch c allowed

  module _ (f : Features) (arch : Arch) where
    pub Step-Good : {w w' : World} → Step f arch w w' → Good w → Good w'
    Step-Good {w} (call c s timer r here clock allowed runs) good =
        (subst Fine runs (Good-Fine f arch w good s timer here clock c allowed)).1

    pub Reach-Good : {w u : World} → Good w → Reach f arch w u → Good u
    Reach-Good good start = good
    Reach-Good good (later r st) = Step-Good st (Reach-Good good r)

    -- Whatever calls have been made from a good state, each of them allowed where it was made: the
    -- next call that is allowed does not panic, and leaves a good state.
    pub Reach-Fine :
        {w u : World}
        → Good w
        → Reach f arch w u
        → (s : SchedulerState) (timer : Timer) → u.scheduler_state ≡ some s
        → u.timer ≡ some timer
        → (c : Call) → Allowed f u s timer c
        → Fine (perform f arch c u)
    Reach-Fine {u} good r s timer here clock c allowed =
        Good-Fine f arch u (Reach-Good good r) s timer here clock c allowed
