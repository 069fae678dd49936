-- ===== src/Cortex/Multitasking/Booting.antt =====
-- From `Scheduler::init` to the first task: where the contexts of the tasks start, and the jump
-- into the idle task.
use taskette.Base.{ℕ, ◌≡◌, refl, ap, sym, true, none, some, List, subst}
use taskette.Heapless.{DequeLib, IndexMapLib, BinaryHeapLib}
use taskette.Memory.{Memory}
use taskette.Machine.{Registers}
use taskette.Outcome.{ok, Features}
use taskette.Kernel.{SchedulerState, SchedulerConfig, World}
use taskette.Scheduler.Tasks.{Arch}
use taskette.Scheduler.Init.{Handle, Launch, start}
use taskette.Program.{Good}
use taskette.Program.Boot.{init-Good, start-Good}
use taskette.Cortex.PendSv.{Cpu, Instr}
use taskette.Cortex.Entry.{init_scheduler}
use taskette.Cortex.Launch.{Thread, stack_pointer, run_with_stack, run_with_stack-enters}
use taskette.Contexts.{Context, alone-Frames}
use taskette.Cortex.Multitasking.{Handler, Holds, CpuFrames}

module _ {scratch : Registers} {save_part restore_part : List Instr} {size : Cpu → ℕ}
    {context : Cpu → List ℕ} (v : Handler scratch save_part restore_part size context)
    ⦃d : DequeLib⦄ ⦃m : IndexMapLib⦄ ⦃h : BinaryHeapLib⦄ (x : ℕ → Context) (low high : ℕ → ℕ) where
  -- Before the scheduler is there, and with the idle task's stack still to be taken: after
  -- `init_scheduler` the state is good, and every task that does not run has its context, as there
  -- is none.
  pub init-Frames :
      (f : Features) (clock_freq bottom top : ℕ) (config : SchedulerConfig) (w : World)
      → w.scheduler_state ≡ none
      → w.idle_task_stack ≡ some (bottom, top)
      → (w' : World) × (g : Good w') × (handle : Handle) × (init_scheduler f clock_freq config w
          ≡ (ok (some handle), w'))
        × (handle.idle_task_stack_end ≡ top)
        × CpuFrames v g.state w'.memory x low high
  unfolding init_scheduler
  init-Frames f clock_freq bottom top config w fresh stack =
      let (w', g, runs, current, last, started, configured, taken) =
        init-Good f clock_freq bottom top config w fresh stack in
      (w', g, _, runs, refl, alone-Frames (Holds v) g.state w'.memory x low high g.inv current last)

  -- In a good state with a configuration, and a timer that can be set up for it: `start` and the
  -- jump into the idle task put the processor into thread mode on the stack of the idle task, with
  -- the main stack pointer for the handlers as it was, and leave a good state; if every task that
  -- does not run had its context before, it has it after.
  pub start-Frames :
      (arch : Arch) (handle : Handle) (config : SchedulerConfig) (w : World) (g : Good w)
      (next entry : ℕ) (c : Thread)
      → w.scheduler_config ≡ some config
      → arch.setup handle.clock_freq config.tick_freq ≡ ok tt
      → CpuFrames v g.state w.memory x low high
      → (w' : World) × (g' : Good w') × (l : Launch) × (start arch handle w ≡ (ok l, w'))
        × (stack_pointer (run_with_stack next entry l.stack_top c) ≡ handle.idle_task_stack_end)
        × ((run_with_stack next entry l.stack_top c).msp ≡ c.msp)
        × (g'.state.started ≡ true)
        × CpuFrames v g'.state w'.memory x low high
  start-Frames arch handle config w g next entry c configured ready frames =
      let (w', g', runs, marked, kept) = start-Good arch handle config w g configured ready in
      let (stack, entered, main, flags) =
        run_with_stack-enters next entry handle.idle_task_stack_end 0 c in
      let begun : CpuFrames v (record (g.state) { started = true }) w.memory x low high = record {
        held = frames.held;
        apart = frames.apart;
        current_apart = frames.current_apart;
      } in
      (
        w',
        g',
        _,
        runs,
        stack,
        main,
        ap (λ (s : SchedulerState). s.started) marked,
        subst (λ (s : SchedulerState). CpuFrames v s w'.memory x low high) (sym marked)
            (subst (λ (k : Memory). CpuFrames v (record (g.state) { started = true }) k x low high)
              (sym kept) begun),
      )
