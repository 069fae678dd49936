-- ===== src/Program/Sleeping/Tick.antt =====
-- One interrupt of the timer, seen from a task that sleeps: it sleeps on, or is woken.
use taskette.Base.{
  ℕ, ◌+◌, ◌^◌, ◌<◌, ◌≡◌, refl, ap, sym, subst, ◌∙◌, Bool, true, false, Option, none, some, arith,
  ◌==◌, ◌⊎◌, inl, inr, tally, Option-cases, Bool-cases, some-inj, eqb→eq, leb, if◌then◌else◌,
}
use taskette.Heapless.{DequeLib, IndexMapLib, BinaryHeapLib}
use taskette.Outcome.{Features}
use taskette.Kernel.{TaskInfo, Timer, SchedulerState, World, save, yield_now}
use taskette.Scheduler.Tasks.{unblock_task}
use taskette.Scheduler.Invariant.{Inv}
use taskette.Scheduler.Invariant.Blocking.{Unblocks}
use taskette.Timer.Ops.{ring_at, set_timer, wake_rung, tick, handle_tick}
use taskette.Timer.Waiting.{tick-run}
use taskette.Program.{Settled}
use taskette.Program.Ending.{Ends, ignored-Ends, then-Ends, unblock_task-Ends}
use taskette.Program.Sleeping.{is_for, IsAwake, IsAsleep}

module _ ⦃d : DequeLib⦄ ⦃m : IndexMapLib⦄ ⦃h : BinaryHeapLib⦄ (t time : ℕ) where
  -- Where a tick leads, with this timer.
  pub record Ticked (timer : Timer) (w : World) : Type 0 where
    pub state : SchedulerState
    pub here : w.scheduler_state ≡ some state
    pub inv : Inv state
    pub clock : w.timer ≡ some timer
    pub settled : Settled state
    pub sleeper : IsAsleep t time timer state ⊎ IsAwake t state

  -- The registration stays, unless it rings.
  ring_at-stays :
      (timer : Timer) (now : ℕ)
      → (((ring_at timer now).0 ≡ some t)
          ⊎ (tally (is_for t time) (h.items (ring_at timer now).1.queue)
              ≡ tally (is_for t time) (h.items timer.queue)))
  unfolding ring_at
  ring_at-stays timer now = elim (Option-cases (h.peek timer.queue)) [
    | inl empty ↦ inr (rw (ring_at, empty) refl)
    | inr (top, first) ↦ elim (Bool-cases (leb top.time now)) [
      | inr waits ↦ inr (rw (ring_at, first, waits) refl)
      | inl rings ↦
          let split = h.pop_lem timer.queue top first (is_for t time) in
          elim (Bool-cases (top.task_id == t)) [
            | inl mine ↦ inl (rw (ring_at, first, rings) (ap some (eqb→eq top.task_id t mine)))
            | inr other ↦ inr (rw (ring_at, first, rings) (ground (arith, split, other)))
          ]
    ]
  ]

  module _ (w : World) (s : SchedulerState) (timer : Timer) (here : w.scheduler_state ≡ some s)
      (inv : Inv s) (clock : w.timer ≡ some timer) (settled : Settled s) where
    -- What is known of the task when `id` is to be woken.
    abbrev Before : ℕ → Type 0
    Before id =
        ((id ≡ t) × ((i : TaskInfo) × (m.get s.tasks t ≡ some i) × (i.blocked ≡ true)))
        ⊎ (IsAsleep t time timer s ⊎ IsAwake t s)

    unchanged-Ticked : IsAsleep t time timer s ⊎ IsAwake t s → Ticked timer (save w s)
    unchanged-Ticked sleeper = record {
      state = s;
      here = refl;
      inv = inv;
      clock = clock;
      settled = settled;
      sleeper = sleeper;
    }

    woken :
        (id : ℕ) (s' : SchedulerState)
        → Unblocks id s s'
        → Before id
        → IsAsleep t time timer s' ⊎ IsAwake t s'
    woken id s' un before = elim (Bool-cases (id == t)) [
      | inl mine ↦ inr (record {
        info = record (un.info) { blocked = false };
        there = un.now t ∙ rw mine refl;
        ready = refl;
      })
      | inr other ↦ elim before [
        | inl (same, there) ↦ absurd (ground (arith, same, other))
        | inr (inl asleep) ↦ inl (record {
          info = asleep.info;
          there = un.now t ∙ rw other asleep.there;
          blocked = asleep.blocked;
          registered = asleep.registered;
        })
        | inr (inr awake) ↦ inr (record {
          info = awake.info;
          there = un.now t ∙ rw other awake.there;
          ready = awake.ready;
        })
      ]
    ]

    woken-Settled : (id : ℕ) (s' : SchedulerState) → Unblocks id s s' → Settled s'
    woken-Settled id s' un i there =
        ground
          (arith, un.now s'.current_task, un.runs, there, settled i, ap (m.get s.tasks) un.runs)

    unblock_task-Ticked : (id : ℕ) → Before id → Ends (Ticked timer) (unblock_task id w)
    unblock_task-Ticked id before =
        unblock_task-Ends w s timer here clock inv (Ticked timer) settled id
          (λ absent. elim before [
            | inl (same, (j, at, blocked)) ↦
                absurd (ground (arith, absent, at, ap (m.get s.tasks) same))
            | inr sleeper ↦ unchanged-Ticked sleeper
          ])
          (λ i there ready. elim before [
            | inl (same, (j, at, blocked)) ↦
                absurd (ground (arith, there, at, ready, blocked, ap (m.get s.tasks) same))
            | inr sleeper ↦ unchanged-Ticked sleeper
          ])
          (λ i s' there blocked un. record {
            state = s';
            here = refl;
            inv = un.inv;
            clock = clock;
            settled = woken-Settled id s' un;
            sleeper = woken id s' un before;
          })

  requested :
      (timer : Timer) (b : Bool) (v : World)
      → Ticked timer v
      → Ticked timer (if b then yield_now v else v)
  requested timer false v ticked = ticked
  requested timer true v ticked = record {
    state = ticked.state;
    here = ticked.here;
    inv = ticked.inv;
    clock = ticked.clock;
    settled = ticked.settled;
    sleeper = ticked.sleeper;
  }

  module _ (w : World) (timer : Timer) (now : Ticked timer w) where
    abbrev s : SchedulerState
    s = now.state

    stays_asleep :
        (timer' : Timer)
        → tally (is_for t time) (h.items timer'.queue) ≡ tally (is_for t time) (h.items timer.queue)
        → IsAsleep t time timer s ⊎ IsAwake t s
        → IsAsleep t time timer' s ⊎ IsAwake t s
    stays_asleep timer' same (inl asleep) = inl (record {
      info = asleep.info;
      there = asleep.there;
      blocked = asleep.blocked;
      registered = omega (arith, same, asleep.registered);
    })
    stays_asleep timer' same (inr awake) = inr awake

    before :
        (id : ℕ) (timer' : Timer)
        → (some id ≡ some t)
          ⊎ (tally (is_for t time) (h.items timer'.queue)
              ≡ tally (is_for t time) (h.items timer.queue))
        → ((id ≡ t) × ((i : TaskInfo) × (m.get s.tasks t ≡ some i) × (i.blocked ≡ true)))
          ⊎ (IsAsleep t time timer' s ⊎ IsAwake t s)
    before id timer' (inr same) = inr (stays_asleep timer' same now.sleeper)
    before id timer' (inl e) = elim (now.sleeper) [
      | inl asleep ↦ inl (some-inj id t e, (asleep.info, asleep.there, asleep.blocked))
      | inr awake ↦ inr (inr awake)
    ]

    rung-Ticked :
        (rung : Option ℕ) (timer' : Timer)
        → (rung ≡ some t)
          ⊎ (tally (is_for t time) (h.items timer'.queue)
              ≡ tally (is_for t time) (h.items timer.queue))
        → Ends (Ticked timer') (wake_rung (rung, timer') w)
    rung-Ticked none timer' (inl e) = cc
    rung-Ticked none timer' (inr same) = (
      (λ e. cc),
      record {
        state = s;
        here = now.here;
        inv = now.inv;
        clock = refl;
        settled = now.settled;
        sleeper = stays_asleep timer' same now.sleeper;
      },
    )
    rung-Ticked (some id) timer' stays =
        ignored-Ends (Ticked timer') w (unblock_task id (set_timer w timer')) (
          unblock_task-Ticked (set_timer w timer') s timer' now.here now.inv refl now.settled id
            (before id timer' stays))

    pub handle_tick-Ticked :
        (f : Features)
        → timer.time + 1 < 2 ^ 64
        → Ends (Ticked (ring_at timer (timer.time + 1)).1) (handle_tick f w)
    unfolding handle_tick
    handle_tick-Ticked f small =
        then-Ends (Ticked (ring_at timer (timer.time + 1)).1)
          (λ v. if f.round_robin then yield_now v else v) (tick f w)
          (λ v ticked. requested (ring_at timer (timer.time + 1)).1 f.round_robin v ticked)
          (subst (Ends (Ticked (ring_at timer (timer.time + 1)).1))
            (sym (tick-run w s timer now.here now.clock now.inv f small))
            (rung-Ticked (ring_at timer (timer.time + 1)).0 (ring_at timer (timer.time + 1)).1
              (ring_at-stays timer (timer.time + 1))))
