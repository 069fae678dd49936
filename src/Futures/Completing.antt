-- ===== src/Futures/Completing.antt =====
-- `block_on` returns: with a future that is ready after finitely many polls, enough fuel gives its
-- output.
use taskette.Base.{
  ℕ, zero, suc, ◌<◌, ◌≡◌, ◌≢◌, refl, ap, sym, ◌∙◌, inl, inr, Bool, false, Option, some, arith,
  length, [], ◌∷◌, ◌++◌, ◌==◌, Bool-cases, eqb→eq, eqb→ne, if◌then◌else◌,
}
use taskette.Heapless.{DequeLib, IndexMapLib, BinaryHeapLib}
use taskette.Outcome.{Outcome, ok}
use taskette.Outcome.Run.{M, continue, expect, ◌>>◌}
use taskette.Kernel.{TaskInfo, SchedulerState, save, yield_now, max_num_tasks, idle_task_id}
use taskette.Scheduler.Invariant.{Inv}
use taskette.Scheduler.Invariant.Blocking.{Blocks}
use taskette.Futex.{Shared, wait, wait_slow}
use taskette.Futex.Waits.{wait_changed, wait_fast, wait_slow-Blocks}
use taskette.Futures.{Poll, ready, pending, Others, wait_for, poll_loop, store, interrupted}

module _ ⦃d : DequeLib⦄ ⦃m : IndexMapLib⦄ ⦃h : BinaryHeapLib⦄ where
  -- The task that waits runs: it is there, ready, and not the idle task, and the futex has room.
  pub record CanWait (x : Shared) : Type 0 where
    pub state : SchedulerState
    pub here : x.world.scheduler_state ≡ some state
    pub inv : Inv state
    pub info : TaskInfo
    pub there : m.get state.tasks state.current_task ≡ some info
    pub awake : info.blocked ≡ false
    pub not_idle : state.current_task ≢ idle_task_id
    pub room : length (d.items x.futex.waiting_tasks) < max_num_tasks

  -- What `wait v` does that finds `x` in its critical section and leaves `x'`: the value is another
  -- one, or the task that runs is blocked, stands at the end of the wait queue, and a switch is
  -- requested.
  pub data Waited (v : ℕ) (x x' : Shared) : Type 0 where
    signalled : x'.futex.value ≢ v → Waited v x x'
    parked :
        (s s' : SchedulerState)
        → x.world.scheduler_state ≡ some s
        → x'.world ≡ yield_now (save (x.world) s')
        → Blocks s.current_task s s'
        → d.items x'.futex.waiting_tasks ≡ d.items x.futex.waiting_tasks ++ s.current_task ∷ []
        → Waited v x x'

  -- `wait` succeeds, whatever value it finds, if the task still can wait in the critical section.
  pub wait-succeeds :
      (between : Shared → Shared) (v : ℕ) (x : Shared)
      → CanWait x
      → CanWait (between x)
      → (x' : Shared) × (wait between v x ≡ (ok tt, x')) × Waited v (between x) x'
  unfolding wait
  wait-succeeds between v x can can' = elim (Bool-cases (x.futex.value == v)) [
    | inr other ↦ (
      x,
      wait_fast between v x (eqb→ne x.futex.value v other),
      signalled (eqb→ne x.futex.value v other),
    )
    | inl same ↦ elim (Bool-cases ((between x).futex.value == v)) [
      | inr changed ↦ (
        between x,
        wait_changed between v x (eqb→eq x.futex.value v same)
            (eqb→ne (between x).futex.value v changed),
        signalled (eqb→ne (between x).futex.value v changed),
      )
      | inl still ↦
          let (q, s', runs, items, blocks) =
            wait_slow-Blocks (between x) can'.state can'.here can'.info can'.inv can'.there
              can'.awake can'.not_idle can'.room in
          (
            _,
            ap (λ (b : Bool). if b then wait_slow v (between x) else (ok tt, x)) same
                ∙ ap (λ (u : ℕ). wait_slow u (between x))
                    (sym (eqb→eq (between x).futex.value v still))
                ∙ runs,
            parked can'.state s' can'.here refl blocks items,
          )
    ]
  ]

  stored-CanWait : (v : ℕ) (x : Shared) → CanWait x → CanWait (store v x).1
  stored-CanWait v x can = record {
    state = can.state;
    here = can.here;
    inv = can.inv;
    info = can.info;
    there = can.there;
    awake = can.awake;
    not_idle = can.not_idle;
    room = can.room;
  }

  module _ {Fut Out : Type 0} (poll : Fut → M Shared (Poll Fut Out)) (others : Others) where
    -- The polls of a future from the `k`-th on, until it is ready with `ret`: each begins with the
    -- futex at 0, and between two of them are one wait and what the others do.
    pub data Polled : ℕ → Fut → Shared → Out → Type 0 where
      last :
          {k : ℕ} {fut : Fut} {x x' : Shared} {ret : Out}
          → x.futex.value ≡ 0
          → poll fut x ≡ (ok (ready ret), x')
          → Polled k fut x ret
      again :
          {k : ℕ} {fut next : Fut} {x x₁ x₂ y : Shared} {ret : Out}
          → x.futex.value ≡ 0
          → poll fut x ≡ (ok (pending next), x₁)
          → Waited 0 (others.between k x₁) x₂
          → y.world ≡ (others.until k x₂).world
          → Polled (suc k) next y ret
          → Polled k fut x ret

  module _ {Fut Out : Type 0} (poll : Fut → M Shared (Poll Fut Out)) (others : Others)
      (left : Fut → ℕ) (Right : Out → Type 0) where
    -- A poll either completes, rightly, or brings the future nearer to its end.
    abbrev pub Advances : Fut → Poll Fut Out → Type 0
    Advances fut (ready ret) = Right ret
    Advances fut (pending next) = left next < left fut

    -- What the future and the other tasks keep to. A poll that begins with the futex at 0 does not
    -- fail and leaves the task running; the others leave it running up to the critical section of
    -- `wait`, and let it run again if `wait` has found the futex signalled or has put it to sleep.
    -- Nothing is said of a poll with the futex still signalled, or after no wait.
    pub record Fair : Type 0 where
      pub polls :
          (fut : Fut) (x : Shared)
          → CanWait x
          → x.futex.value ≡ 0
          → (r : Poll Fut Out) × (x' : Shared) × (poll fut x ≡ (ok r, x'))
            × CanWait x'
            × Advances fut r
      pub between : (k : ℕ) (x : Shared) → CanWait x → CanWait (others.between k x)
      pub until :
          (k : ℕ) (x x' : Shared)
          → CanWait x
          → Waited 0 (others.between k x) x'
          → CanWait (others.until k x')

    abbrev Returned : ℕ → Fut → Shared → Outcome (Option Out) × Shared → Type 0
    Returned k fut x r =
        (ret : Out) × (x' : Shared) × (r ≡ (ok (some ret), x'))
        × Right ret
        × Polled poll others k fut x ret

    module _ (fair : Fair) where
      after_poll :
          (fuel k : ℕ) (fut : Fut) (r : Poll Fut Out) (x₀ x : Shared)
          → x₀.futex.value ≡ 0
          → poll fut x₀ ≡ (ok r, x)
          → CanWait x
          → Advances fut r
          → left fut < suc fuel
          → ((next : Fut) (y : Shared)
              → CanWait y
              → y.futex.value ≡ 0
              → left next < fuel
              → Returned (suc k) next y (poll_loop poll others fuel (suc k) next y))
          → Returned k fut x₀ (wait_for poll others (poll_loop poll others fuel) k r x)
      unfolding wait_for
      after_poll fuel k fut (ready ret) x₀ x reset runs can right enough rest =
          (ret, x, refl, right, last reset runs)
      after_poll fuel k fut (pending next) x₀ x reset polled can nearer enough rest =
          let (x', runs, waited) =
            wait-succeeds (others.between k) 0 x can (fair.between k x can) in
          let can' = fair.until k x x' can waited in
          let (ret, x'', loops, right, polls) =
            rest next (store 0 (others.until k x')).1 (stored-CanWait 0 (others.until k x') can')
              refl (omega (arith, nearer)) in
          (
            ret,
            x'',
            ap
                  (λ (p : Outcome (Unit {0}) × Shared).
                    ((expect (λ (y : Shared). p) >> interrupted (others.until k) >> store 0)
                        >> poll_loop poll others fuel (suc k) next)
                      x)
                  runs
                ∙ loops,
            right,
            again reset polled waited refl polls,
          )

      pub poll_loop-returns :
          (fuel k : ℕ) (fut : Fut) (x : Shared)
          → CanWait x
          → x.futex.value ≡ 0
          → left fut < fuel
          → Returned k fut x (poll_loop poll others fuel k fut x)
      unfolding poll_loop
      poll_loop-returns zero k fut x can reset enough = absurd (omega (arith, enough))
      poll_loop-returns (suc fuel) k fut x can reset enough =
          let (r, x', runs, can', advances) = fair.polls fut x can reset in
          let (ret, x'', loops, right, polls) =
            after_poll fuel k fut r x x' reset runs can' advances enough
              (λ next y can'' reset' less.
                poll_loop-returns fuel (suc k) next y can'' reset' less) in
          (
            ret,
            x'',
            ap (continue (wait_for poll others (poll_loop poll others fuel) k)) runs ∙ loops,
            right,
            polls,
          )
