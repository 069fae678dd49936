-- ===== src/Demos/Esp.antt =====
-- The demo for the chips with RISC-V, examples/esp/examples/demo.rs, with its one task that blinks,
-- and the benchmark for them, examples/benchmark-esp-riscv/src/main.rs.
use taskette.Base.{
  ℕ, suc, ◌*◌, ◌^◌, ◌≤◌, ◌<◌, ◌≡◌, refl, ap, ◌∙◌, true, none, some, arith, lt→ltb, if◌then◌else◌,
}
use taskette.Heapless.{DequeLib, IndexMapLib, BinaryHeapLib}
use taskette.Outcome.{Outcome, ok, Features, mul_word}
use taskette.Outcome.Run.{M, ◌>>=◌}
use taskette.Kernel.{
  SchedulerState, SchedulerConfig, World, idle_task_id, max_priority, yield_now, save,
}
use taskette.Task.{default, with_priority}
use taskette.Delay.{lift}
use taskette.Scheduler.Init.{Handle, Launch, default_config, with_tick_freq, start}
use taskette.Scheduler.Tasks.{StackRange, spawn}
use taskette.Scheduler.Invariant.Counting.{length-tasks}
use taskette.Scheduler.Calls.Spawn.{spawn-Registers, with_stack, unpend}
use taskette.Program.{Good}
use taskette.Program.Boot.{init-Good, start-Good, config_there}
use taskette.Esp.Entry.{init_scheduler}
use taskette.Esp.Stack.{arch}
use taskette.Demos.{Closure, Job, job, unwrap, spawn_job, run_two}

abbrev pub tick_freq : ℕ
tick_freq = 1000

abbrev pub config : SchedulerConfig
config = with_tick_freq default_config tick_freq

module _ ⦃d : DequeLib⦄ ⦃m : IndexMapLib⦄ ⦃h : BinaryHeapLib⦄ where
  -- `1_000_000 * clock as u32`, where `clock` is `CpuClock::max()`, in MHz; and `init_scheduler`.
  unfoldable pub scheduler : Features → ℕ → M World Handle
  unfolding default_config with_tick_freq
  scheduler f clock = do
    clock_freq ← lift (mul_word f 32 1_000_000 clock)
    init_scheduler f clock_freq config >>= unwrap

  -- `main` of the demo.
  unfoldable pub demo_main : Features → ℕ → Closure → StackRange → M World Launch
  unfolding scheduler default
  demo_main f clock blink_task blink_task_stack = do
    handle ← scheduler f clock
    id ← spawn_job f arch (job blink_task blink_task_stack default)
    start arch handle

  -- `main` of the benchmark.
  unfoldable pub benchmark_main :
      Features → ℕ → Closure → Closure → StackRange → StackRange → M World Launch
  unfolding scheduler default with_priority
  benchmark_main f clock task1_func task2_func task1_stack task2_stack = do
    handle ← scheduler f clock
    run_two f arch handle (job task1_func task1_stack (with_priority default 1))
        (job task2_func task2_stack (with_priority default 1))

  -- A good state in which fewer ids than there is room for tasks are given away.
  record Early (w : World) (last : ℕ) : Type 0 where
    good : Good w
    few : good.state.last_task_id ≡ last
    configured : w.scheduler_config ≡ some config
    idle : good.state.current_task ≡ idle_task_id

  spawn-Early :
      (f : Features) (j : Job) (w : World) (last : ℕ)
      → Early w last
      → last < 15
      → j.config.priority ≤ max_priority
      → (id : ℕ) × (w' : World) × (spawn f arch j.closure.code j.closure.captured j.stack
            j.config.priority w
          ≡ (ok id, w'))
        × Early w' (suc last)
  spawn-Early f j w last early small ready =
      let g : Good w = early.good in
      let s : SchedulerState = g.state in
      let (s', runs, made) =
        spawn-Registers w s (g.here) (g.inv) f arch j.closure.code j.closure.captured j.stack
          j.config.priority ready (omega (arith, length-tasks s (g.inv), early.few, small))
          (omega (arith, early.few, small)) in
      let v : World =
        save
          (with_stack w s (g.here) (g.inv) f arch j.closure.code j.closure.captured j.stack
            j.config.priority)
          s' in
      (
        suc s.last_task_id,
        if s.started then yield_now v else v,
        runs,
        record {
          good = record {
            state = s';
            here = unpend (λ (k : World). k.scheduler_state) (λ k. refl) s.started v;
            inv = made.inv;
            timer = g.timer;
            clock = unpend (λ (k : World). k.timer) (λ k. refl) s.started v ∙ g.clock;
          };
          few = made.last ∙ ap suc early.few;
          configured =
              unpend (λ (k : World). k.scheduler_config) (λ k. refl) s.started v ∙ early.configured;
          idle = made.runs ∙ early.idle;
        },
      )

  module _ (f : Features) (clock : ℕ) (w : World) (idle : StackRange)
      (fresh : w.scheduler_state ≡ none)
      (idle_stack : w.idle_task_stack ≡ some (idle.start, idle.end))
      (small : 1_000_000 * clock < 2 ^ 32) where
    abbrev pub handle : Handle
    handle = record {
      clock_freq = 1_000_000 * clock;
      idle_task_stack_start = idle.start;
      idle_task_stack_end = idle.end;
    }

    scheduler-Early : (w' : World) × (scheduler f clock w ≡ (ok handle, w')) × Early w' 0
    unfolding scheduler init_scheduler
    scheduler-Early =
        let (w', g, runs, current, last, started, configured, taken) =
          init-Good f (1_000_000 * clock) idle.start idle.end config w fresh idle_stack in
        (
          w',
          rw (scheduler, lt→ltb (1_000_000 * clock) (2 ^ 32) small, init_scheduler, runs) refl,
          record {
            good = g;
            few = last;
            configured = config_there w' config configured;
            idle = current;
          },
        )

    -- The program ends with the jump to the idle task, in a good state.
    abbrev pub Enters : ℕ → Outcome Launch × World → Type 0
    Enters tasks result =
        (w' : World) × (g : Good w') × (result
          ≡ (ok (record { stack_top = idle.end; stack_bottom = idle.start }), w'))
        × (g.state.started ≡ true)
        × (g.state.current_task ≡ idle_task_id)
        × (g.state.last_task_id ≡ tasks)

    start-Enters : (w0 : World) (tasks : ℕ) → Early w0 tasks → Enters tasks (start arch handle w0)
    start-Enters w0 tasks early =
        let (w', g, runs, marked, kept) =
          start-Good arch handle config w0 early.good early.configured refl in
        (
          w',
          g,
          runs,
          ap (λ (s : SchedulerState). s.started) marked,
          ap (λ (s : SchedulerState). s.current_task) marked ∙ early.idle,
          ap (λ (s : SchedulerState). s.last_task_id) marked ∙ early.few,
        )

    -- Before the scheduler is there, with the idle task's stack still to be taken, and with a clock
    -- whose frequency fits into 32 bits: the demo gets to its idle task, neither with an error nor
    -- with a panic, in a good state with one task more.
    pub demo-Enters :
        (blink_task : Closure) (blink_task_stack : StackRange)
        → Enters 1 (demo_main f clock blink_task blink_task_stack w)
    unfolding demo_main
    demo-Enters blink_task blink_task_stack =
        let (w0, runs0, early0) = scheduler-Early in
        let (id, w1, runs1, early1) =
          spawn-Early f (job blink_task blink_task_stack default) w0 0 early0 (omega arith)
            (omega arith) in
        rw (demo_main, runs0, runs1) (start-Enters w1 1 early1)

    -- And so does the benchmark, with two tasks more.
    pub benchmark-Enters :
        (task1_func task2_func : Closure) (task1_stack task2_stack : StackRange)
        → Enters 2 (benchmark_main f clock task1_func task2_func task1_stack task2_stack w)
    unfolding benchmark_main run_two
    benchmark-Enters task1_func task2_func task1_stack task2_stack =
        let (w0, runs0, early0) = scheduler-Early in
        let (id, w1, runs1, early1) =
          spawn-Early f (job task1_func task1_stack (with_priority default 1)) w0 0 early0
            (omega arith) (omega arith) in
        let (id', w2, runs2, early2) =
          spawn-Early f (job task2_func task2_stack (with_priority default 1)) w1 1 early1
            (omega arith) (omega arith) in
        rw (benchmark_main, runs0, run_two, runs1, runs2) (start-Enters w2 2 early2)
