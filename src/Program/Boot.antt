-- ===== src/Program/Boot.antt =====
-- `Scheduler::init` and `Scheduler::start` at the state of the program.
use taskette.Base.{
  arith, Option-cases, inl, inr, ℕ, ◌≡◌, refl, ap, ◌∙◌, Bool, true, false, Option, none, some,
  if◌then◌else◌,
}
use taskette.Heapless.{DequeLib, IndexMapLib, BinaryHeapLib}
use taskette.Outcome.{Outcome, ok, panic, Features}
use taskette.Outcome.Run.{continue, ◌>>◌}
use taskette.Kernel.{SchedulerState, SchedulerConfig, World, save, idle_task_id}
use taskette.Scheduler.Canary.{fill_stack_canary}
use taskette.Scheduler.Tasks.{Arch}
use taskette.Scheduler.Init.{
  Handle, initial_state, installed, init_on, init, get_config, start, launch, set_up, mark_started,
}
use taskette.Scheduler.Invariant.Starting.{initial_state-Inv}
use taskette.Timer
use taskette.Program.{Good}

module _ ⦃d : DequeLib⦄ ⦃m : IndexMapLib⦄ ⦃h : BinaryHeapLib⦄ where
  handle_for : ℕ → ℕ → ℕ → Handle
  handle_for clock_freq bottom top = record {
    clock_freq = clock_freq;
    idle_task_stack_start = bottom;
    idle_task_stack_end = top;
  }

  install_over : ℕ → World → Option SchedulerState → Outcome Bool × World
  install_over bottom w o = elim o [
    | some s ↦ (ok false, w)
    | none ↦ installed w (initial_state bottom)
  ]

  -- Before the scheduler is there, and with the idle task's stack still to be taken, `init` gives a
  -- handle, and the state after it is good: the idle task runs, no id has been given to another, the
  -- scheduler has not started, and the given configuration is in force.
  pub init-Good :
      (f : Features) (clock_freq bottom top : ℕ) (config : SchedulerConfig) (w : World)
      → w.scheduler_state ≡ none
      → w.idle_task_stack ≡ some (bottom, top)
      → (w' : World) × (g : Good w') × (init f clock_freq config w ≡ (
        ok (
            some (record {
              clock_freq = clock_freq;
              idle_task_stack_start = bottom;
              idle_task_stack_end = top;
            })),
        w',
      ))
        × (g.state.current_task ≡ idle_task_id)
        × (g.state.last_task_id ≡ idle_task_id)
        × (g.state.started ≡ false)
        × (get_config w' ≡ (ok config, w'))
        × (w'.idle_task_stack ≡ none)
  unfolding init init_on get_config Timer.init handle_for install_over
  init-Good f clock_freq bottom top config w fresh stack =
      let (s, made, inv, started, current, last) = initial_state-Inv bottom in
      let configured : World = record w {
        scheduler_config = some config;
        idle_task_stack = none;
      } in
      let filled : World = record configured {
        memory = if f.stack_canary then fill_stack_canary w.memory bottom else w.memory;
      } in
      let handle : Bool → World → Outcome (Option Handle) × World =
        λ is_new v. (ok (if is_new then some (handle_for clock_freq bottom top) else none), v) in
      (
        Timer.init (save filled s),
        record { state = s; here = refl; inv = inv; timer = _; clock = refl },
        ap (λ (o : Option (ℕ × ℕ)). init_on f clock_freq o configured) stack
            ∙ ap (λ (o : Option SchedulerState). continue handle (install_over bottom filled o))
                fresh
            ∙ ap (λ (r : Outcome SchedulerState). continue handle (installed filled r)) made,
        current,
        last,
        started,
        refl,
        refl,
      )

  -- A second `init`, after the idle task's stack is taken, gives nothing, and leaves the scheduler
  -- as it is, but the new configuration takes the place of the one that the timer was started with.
  pub init_again :
      (f : Features) (clock_freq : ℕ) (config : SchedulerConfig) (w : World)
      → w.idle_task_stack ≡ none
      → (w' : World) × (init f clock_freq config w ≡ (ok none, w'))
        × (w'.scheduler_state ≡ w.scheduler_state)
        × (w'.timer ≡ w.timer)
        × (get_config w' ≡ (ok config, w'))
  unfolding init init_on get_config
  init_again f clock_freq config w taken = (
    record w { scheduler_config = some config; idle_task_stack = none },
    ap
        (λ (o : Option (ℕ × ℕ)).
          init_on f clock_freq o
            (record w { scheduler_config = some config; idle_task_stack = none }))
        taken,
    refl,
    refl,
    refl,
  )

  config_of : World → Option SchedulerConfig → Outcome SchedulerConfig × World
  config_of w o = elim o [ none ↦ (panic, w) | some c ↦ (ok c, w) ]

  mark_of : World → Option SchedulerState → Outcome (Unit {0}) × World
  mark_of w o = elim o [
    | none ↦ (ok tt, w)
    | some s ↦ (ok tt, save w (record s { started = true }))
  ]

  -- `start`, with a configuration, and a timer that can be set up for it, marks the scheduler as
  -- started and launches the idle task on its stack; the state stays good, and memory is not written.
  pub start-Good :
      (arch : Arch) (handle : Handle) (config : SchedulerConfig) (w : World) (g : Good w)
      → w.scheduler_config ≡ some config
      → arch.setup handle.clock_freq config.tick_freq ≡ ok tt
      → (w' : World) × (g' : Good w') × (start arch handle w ≡ (
        ok (record {
          stack_top = handle.idle_task_stack_end;
          stack_bottom = handle.idle_task_stack_start;
        }),
        w',
      ))
        × (g'.state ≡ record (g.state) { started = true })
        × (w'.memory ≡ w.memory)
  unfolding start config_of mark_of
  start-Good arch handle config w g configured ready = (
    save w (record (g.state) { started = true }),
    record {
      state = record (g.state) { started = true };
      here = refl;
      inv = record { placed = g.inv.placed; current = g.inv.current };
      timer = g.timer;
      clock = g.clock;
    },
    ap
          (λ (o : Option SchedulerConfig).
            continue (λ c. set_up arch handle c >> (mark_started >> launch handle)) (config_of w o))
          configured
        ∙ ap (λ (r : Outcome (Unit {0})). continue (λ _. mark_started >> launch handle) (r, w))
            ready
        ∙ ap (λ (o : Option SchedulerState). continue (λ _. launch handle) (mark_of w o)) g.here,
    refl,
    refl,
  )

module _ ⦃d : DequeLib⦄ ⦃m : IndexMapLib⦄ ⦃h : BinaryHeapLib⦄ where
  -- What `get_config` gives is there.
  pub config_there :
      (w : World) (config : SchedulerConfig)
      → get_config w ≡ (ok config, w)
      → w.scheduler_config ≡ some config
  unfolding get_config
  config_there w config e = elim (Option-cases w.scheduler_config) [
    | inl absent ↦ absurd (ground (arith, e, absent))
    | inr (c, at) ↦ ground (arith, e, at)
  ]
