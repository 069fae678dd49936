-- ===== src/Cortex/System/Handling.antt =====
-- A turn in which the handler runs.
use taskette.Base.{
  ℕ, ◌-◌, ◌≤◌, ◌≡◌, refl, ap, sym, ◌∙◌, some, arith, ◌==◌, update, if◌then◌else◌, some-inj,
}
use taskette.Heapless.{DequeLib, IndexMapLib, BinaryHeapLib}
use taskette.Memory.{Memory}
use taskette.Memory.Words.{SameOutside}
use taskette.Machine.{Registers}
use taskette.Outcome.{Outcome, ok, Features}
use taskette.Kernel.{SchedulerState, World, save}
use taskette.Scheduler.Switch.{select_task}
use taskette.Scheduler.Invariant.{Inv}
use taskette.Scheduler.Invariant.Storing.{CanaryOk, left_at}
use taskette.Cortex.PendSv.{sp}
use taskette.Contexts.{Context, kernel}
use taskette.Cortex.Multitasking.{CpuFrames, context_of, IsRunnable}
use taskette.Cortex.Multitasking.Variants.{v7m-Handler, core_context}
use taskette.Cortex.Multitasking.Switching.{pend_sv-Switches, pend_sv-memory}
use taskette.Cortex.System.{Machine, Sound, saved, switched}
use taskette.Cortex.System.Still.{Stepped}

module _ ⦃d : DequeLib⦄ ⦃m : IndexMapLib⦄ ⦃h : BinaryHeapLib⦄ where
  -- The handler ran: the kernel chose a task, which has its context.
  pub record Ran (scratch : Registers) (a b : Machine) : Type 0 where
    pub inv : Inv b.state
    pub main : b.cpu.reg sp ≡ a.cpu.reg sp
    pub stored :
        (t : ℕ)
        → m.get b.state.tasks t ≡ (
            if a.state.current_task == t
            then left_at (a.cpu.psp - 40) (m.get a.state.tasks t)
            else m.get a.state.tasks t)
    pub within : SameOutside (a.cpu.psp - 40) 40 a.cpu.memory b.cpu.memory
    pub registers : core_context b.cpu ≡ (b.contexts b.state.current_task).registers
    pub psp : b.cpu.psp ≡ (b.contexts b.state.current_task).psp
    pub frames : CpuFrames (v7m-Handler scratch) b.state b.cpu.memory b.contexts a.low a.high

  module _ (scratch : Registers) (a : Machine) (ok_a : Sound scratch a) where
    module _ (f : Features) (next : ℕ) (w : World) (s : SchedulerState)
        (runnable : IsRunnable (v7m-Handler scratch) a.cpu)
        (above : a.low a.state.current_task ≤ a.cpu.psp - 40)
        (below : a.cpu.psp ≤ a.high a.state.current_task)
        (intact : CanaryOk f (saved scratch f a).memory a.state)
        (e : select_task f
            (a.cpu.psp - 40)
            (record (a.world) { memory = (saved scratch f a).memory })
          ≡ (ok next, w))
        (here : w.scheduler_state ≡ some s) where
      abbrev b : Machine
      b = record a {
        cpu = switched scratch f a;
        world = record w { memory = (switched scratch f a).memory };
        state = s;
        contexts = update a.contexts a.state.current_task (context_of (v7m-Handler scratch) a.cpu);
      }

      pub handled-Ran : Ran scratch a b × (w.timer ≡ a.world.timer)
      handled-Ran =
          let (next', s', runs, sw, registers, psp, main, frames) =
            pend_sv-Switches (v7m-Handler scratch) f a.world a.state ok_a.here ok_a.inv a.cpu
              ok_a.shared runnable a.contexts a.low a.high ok_a.frames above below intact in
          let memory : (switched scratch f a).memory ≡ (saved scratch f a).memory =
            pend_sv-memory (v7m-Handler scratch) f a.world a.state ok_a.here ok_a.inv a.cpu
              ok_a.shared runnable a.contexts a.low a.high ok_a.frames above below next' s' runs in
          let world : w ≡ save (record (a.world) { memory = (saved scratch f a).memory }) s' =
            ap (λ (p : Outcome ℕ × World). p.1) (sym e ∙ runs) in
          let state : s ≡ s' =
            some-inj s s' (sym here ∙ ap (λ (k : World). k.scheduler_state) world) in
          let within : SameOutside (a.cpu.psp - 40) 40 a.cpu.memory (saved scratch f a).memory =
            ((v7m-Handler scratch).switches (kernel f a.world)).within a.cpu runnable.room
              runnable.small in
          (
            record {
              inv = rw state sw.inv;
              main = main;
              stored = rw state sw.stored;
              within = λ k away. ap (λ (x : Memory). x k) memory ∙ within k away;
              registers = rw state registers;
              psp = rw state psp;
              frames = rw state frames;
            },
            ap (λ (k : World). k.timer) world,
          )

      pub handled-Stepped : Stepped scratch a b
      handled-Stepped =
          let (ran, clock) = handled-Ran in
          record {
            sound = record {
              here = here;
              clock = clock ∙ ok_a.clock;
              inv = ran.inv;
              shared = refl;
              frames = ran.frames;
            };
            main = ran.main;
            still = λ t i there other. record {
              info = i;
              there = rw (ran.stored t, other) there;
              same_context = rw other refl;
              same_low = refl;
              same_high = refl;
              stack = λ k from to.
                  ran.within k (ground (arith, ok_a.frames.current_apart t i there other));
            };
            arrives = λ t other runs.
                let mine : b.contexts s.current_task ≡ a.contexts t = rw (runs, other) refl in
                (
                  ran.registers ∙ ap (λ (x : Context). x.registers) mine,
                  ran.psp ∙ ap (λ (x : Context). x.psp) mine,
                );
          }
