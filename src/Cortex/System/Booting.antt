-- ===== src/Cortex/System/Booting.antt =====
-- From `init_scheduler` to the first task, with the tasks that are spawned in between.
use taskette.Base.{
  ℕ, suc, ◌≡◌, refl, ap, sym, subst, ◌∙◌, Bool, true, false, none, some, List, eqb_refl, ◌==◌,
  update, if◌then◌else◌,
}
use taskette.Heapless.{DequeLib, IndexMapLib, BinaryHeapLib}
use taskette.Memory.{Memory}
use taskette.Machine.{Registers}
use taskette.Outcome.{ok, Features}
use taskette.Kernel.{
  TaskInfo, SchedulerState, SchedulerConfig, Timer, World, yield_now, save, idle_task_id,
}
use taskette.Scheduler.Init.{Handle, start}
use taskette.Scheduler.Tasks.{StackRange, spawn}
use taskette.Scheduler.Calls.Spawn.{new_block, with_stack, spawn-Registers, unpend}
use taskette.Scheduler.Invariant.{Inv}
use taskette.Program.Boot.{init-Good, start-Good, config_there}
use taskette.Cortex.PendSv.{Cpu}
use taskette.Cortex.Entry.{init_scheduler}
use taskette.Cortex.Stack.{arch}
use taskette.Contexts.{Context, alone-Frames}
use taskette.Cortex.Multitasking.{Holds, CpuFrames}
use taskette.Cortex.Multitasking.Variants.{v7m-Handler, first_context}
use taskette.Cortex.System.{Machine, Sound, Fresh}
use taskette.Cortex.System.Spawning.{spawns-Stepped}

module _ ⦃d : DequeLib⦄ ⦃m : IndexMapLib⦄ ⦃h : BinaryHeapLib⦄ where
  -- The machine after a task is spawned.
  abbrev pub with_task :
      Registers → Machine → ℕ → StackRange → World → SchedulerState → TaskInfo → Machine
  with_task scratch a id stack w s i = record a {
    cpu = record (a.cpu) { memory = w.memory };
    world = w;
    state = s;
    contexts = update a.contexts id (first_context scratch i.stack_pointer);
    low = update a.low id stack.start;
    high = update a.high id stack.end;
  }

  module _ (scratch : Registers) (f : Features) (padding : ℕ) (a : Machine) where
    abbrev pub Spawned : ℕ → List ℕ → StackRange → ℕ → ℕ → Type 0
    Spawned pc arg stack priority id =
        (w : World) × (s : SchedulerState) × (i : TaskInfo) × (spawn f (arch padding) pc arg stack
            priority a.world
          ≡ (ok (id), w))
        × (w.scheduler_config ≡ a.world.scheduler_config)
        × (s.last_task_id ≡ id)
        × (s.current_task ≡ a.state.current_task)
        × (s.started ≡ a.state.started)
        × ((t : ℕ) → m.get s.tasks t ≡ (if id == t then some i else m.get a.state.tasks t))
        × (i.priority ≡ priority)
        × (i.blocked ≡ false)
        × Sound scratch (with_task scratch a (id) stack w s i)

  module _ (scratch : Registers) (f : Features) (padding : ℕ) (a : Machine)
      (ok_a : Sound scratch a) where
    spawned :
        (pc : ℕ) (arg : List ℕ) (stack : StackRange) (priority : ℕ)
        → Fresh a pc arg stack priority
        → Spawned scratch f padding a pc arg stack priority (suc a.state.last_task_id)
    spawned pc arg stack priority fresh =
        let (s, runs, made) =
          spawn-Registers a.world a.state ok_a.here ok_a.inv f (arch padding) pc arg stack priority
            fresh.ready fresh.space fresh.unwrapped in
        let v : World =
          save
            (with_stack a.world a.state ok_a.here ok_a.inv f (arch padding) pc arg stack priority)
            s in
        let i : TaskInfo =
          new_block a.world a.state ok_a.here ok_a.inv f (arch padding) pc arg stack priority in
        let w : World = if a.state.started then yield_now v else v in
        let here : w.scheduler_state ≡ some s =
          unpend (λ (k : World). k.scheduler_state) (λ k. refl) a.state.started v in
        let clock : w.timer ≡ some a.timer =
          unpend (λ (k : World). k.timer) (λ k. refl) a.state.started v ∙ ok_a.clock in
        let there : m.get s.tasks (suc a.state.last_task_id) ≡ some i =
          made.now (suc a.state.last_task_id)
          ∙ ap (λ (b : Bool). if b then some i else m.get a.state.tasks (suc a.state.last_task_id))
              (eqb_refl (suc a.state.last_task_id)) in
        let stepped =
          spawns-Stepped scratch a ok_a f padding pc arg stack priority (suc a.state.last_task_id) w
            s a.timer i fresh runs here clock there in
        (
          w,
          s,
          i,
          runs,
          unpend (λ (k : World). k.scheduler_config) (λ k. refl) a.state.started v,
          made.last,
          made.runs,
          made.started,
          made.now,
          refl,
          refl,
          stepped.sound,
        )

    -- `spawn` on a fresh stack succeeds, and the system stays sound.
    pub spawn-Sound :
        (pc : ℕ) (arg : List ℕ) (stack : StackRange) (priority id : ℕ)
        → suc a.state.last_task_id ≡ id
        → Fresh a pc arg stack priority
        → Spawned scratch f padding a pc arg stack priority id
    spawn-Sound pc arg stack priority id next fresh =
        subst (Spawned scratch f padding a pc arg stack priority) next
          (spawned pc arg stack priority fresh)

    -- With a configuration, and a timer that can be set up for it, `start` jumps to the top of the
    -- idle task's stack, and the system stays sound.
    pub start-Sound :
        (handle : Handle) (config : SchedulerConfig)
        → a.world.scheduler_config ≡ some config
        → (arch padding).setup handle.clock_freq config.tick_freq ≡ ok tt
        → (w : World) × (timer : Timer) × (start (arch padding) handle a.world ≡ (
          ok (record {
            stack_top = handle.idle_task_stack_end;
            stack_bottom = handle.idle_task_stack_start;
          }),
          w,
        ))
          × Sound scratch
              (record a { world = w; state = record (a.state) { started = true }; timer = timer })
    start-Sound handle config configured ready =
        let (w, g, runs, marked, kept) =
          start-Good (arch padding) handle config a.world
            (record {
              state = a.state;
              here = ok_a.here;
              inv = ok_a.inv;
              timer = a.timer;
              clock = ok_a.clock;
            })
            configured ready in
        let begun : CpuFrames (v7m-Handler scratch) (record (a.state) { started = true })
            a.world.memory a.contexts a.low a.high =
          record {
            held = ok_a.frames.held;
            apart = ok_a.frames.apart;
            current_apart = ok_a.frames.current_apart;
          } in
        (
          w,
          g.timer,
          runs,
          record {
            here = g.here ∙ ap some marked;
            clock = g.clock;
            inv = subst Inv marked (g.inv);
            shared = ok_a.shared ∙ sym kept;
            frames =
                subst
                  (λ (k : Memory).
                    CpuFrames (v7m-Handler scratch) (record (a.state) { started = true }) k
                      a.contexts a.low a.high)
                  (sym kept) begun;
          },
        )

  module _ (scratch : Registers) (f : Features) (x : ℕ → Context) (low high : ℕ → ℕ) (c : Cpu) where
    abbrev pub booted : World → SchedulerState → Timer → Machine
    booted w s timer = record {
      cpu = record c { memory = w.memory };
      world = w;
      state = s;
      timer = timer;
      contexts = x;
      low = low;
      high = high;
    }

    -- Before the scheduler is there, and with the idle task's stack still to be taken:
    -- `init_scheduler` succeeds, and the system with the idle task alone is sound.
    pub init-Sound :
        (clock_freq bottom top : ℕ) (config : SchedulerConfig) (w : World)
        → w.scheduler_state ≡ none
        → w.idle_task_stack ≡ some (bottom, top)
        → (w' : World) × (s : SchedulerState) × (timer : Timer) × (init_scheduler f clock_freq
              config w
            ≡ (
              ok (
                  some (record {
                    clock_freq = clock_freq;
                    idle_task_stack_start = bottom;
                    idle_task_stack_end = top;
                  })),
              w',
            ))
          × (w'.scheduler_config ≡ some config)
          × (s.current_task ≡ idle_task_id)
          × (s.last_task_id ≡ idle_task_id)
          × (s.started ≡ false)
          × Sound scratch (booted w' s timer)
    unfolding init_scheduler
    init-Sound clock_freq bottom top config w fresh stack =
        let (w', g, runs, current, last, started, configured, taken) =
          init-Good f clock_freq bottom top config w fresh stack in
        (
          w',
          g.state,
          g.timer,
          runs,
          config_there w' config configured,
          current,
          last,
          started,
          record {
            here = g.here;
            clock = g.clock;
            inv = g.inv;
            shared = refl;
            frames =
                alone-Frames (Holds (v7m-Handler scratch)) g.state w'.memory x low high g.inv
                  current last;
          },
        )
