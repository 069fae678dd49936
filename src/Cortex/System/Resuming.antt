-- ===== src/Cortex/System/Resuming.antt =====
-- A task that is preempted, and runs again after any turns of the others.
use taskette.Base.{ℕ, ◌-◌, ◌≤◌, ◌≡◌, refl, ap, ◌∙◌, inr, false, some, arith, ◌==◌, eqb_refl, update}
use taskette.Heapless.{DequeLib, IndexMapLib, BinaryHeapLib}
use taskette.Machine.{Registers}
use taskette.Machine.Frames.{SameInside}
use taskette.Outcome.{Features}
use taskette.Kernel.{TaskInfo}
use taskette.Contexts.{Context}
use taskette.Cortex.PendSv.{sp}
use taskette.Cortex.Multitasking.{context_of}
use taskette.Cortex.Multitasking.Variants.{v7m-Handler, core_context}
use taskette.Cortex.System.{Machine, Sound, Turn, Switch, handled, Away, start, later}
use taskette.Cortex.System.Handling.{handled-Ran, handled-Stepped}
use taskette.Cortex.System.Steps.{Turn-Stepped}

module _ ⦃d : DequeLib⦄ ⦃m : IndexMapLib⦄ ⦃h : BinaryHeapLib⦄ (scratch : Registers) where
  -- Task `t` waits for its turn, to go on as it was in `a`.
  pub record Preempted (t : ℕ) (a b : Machine) : Type 0 where
    pub info : TaskInfo
    pub there : m.get b.state.tasks t ≡ some info
    pub context : b.contexts t ≡ context_of (v7m-Handler scratch) a.cpu
    pub same_low : b.low t ≡ a.low t
    pub same_high : b.high t ≡ a.high t

  -- The registers, the stack pointers, and the stack in use are those of `a`.
  pub record Resumed (t : ℕ) (a b : Machine) : Type 0 where
    pub registers : core_context b.cpu ≡ core_context a.cpu
    pub psp : b.cpu.psp ≡ a.cpu.psp
    pub main : b.cpu.reg sp ≡ a.cpu.reg sp
    pub stack : SameInside a.cpu.psp (a.high t - a.cpu.psp) a.cpu.memory b.cpu.memory

  record Follows (t : ℕ) (a b : Machine) : Type 0 where
    above : a.low t ≤ a.cpu.psp
    sound : Sound scratch b
    main : b.cpu.reg sp ≡ a.cpu.reg sp
    stack : SameInside a.cpu.psp (a.high t - a.cpu.psp) a.cpu.memory b.cpu.memory
    waits : (b.state.current_task == t) ≡ false → Preempted t a b
    runs :
        b.state.current_task ≡ t
        → (core_context b.cpu ≡ core_context a.cpu) × (b.cpu.psp ≡ a.cpu.psp)

  module _ (f : Features) (padding : ℕ) (a : Machine) (ok_a : Sound scratch a) (i : TaskInfo)
      (there : m.get a.state.tasks a.state.current_task ≡ some i) where
    abbrev t : ℕ
    t = a.state.current_task

    Switch-Follows : {b : Machine} → Switch scratch f a b → Follows t a b
    Switch-Follows (handled next w s runnable low_ok below intact e here) =
        let (ran, clock) =
          handled-Ran scratch a ok_a f next w s runnable low_ok below intact e here in
        record {
          above = omega (arith, low_ok);
          sound =
              (handled-Stepped scratch a ok_a f next w s runnable low_ok below intact e here).sound;
          main = ran.main;
          stack = λ k from to. ran.within k (inr (omega (arith, from, runnable.room)));
          waits = λ other. record {
            info = record i { stack_pointer = a.cpu.psp - 40 };
            there = rw (ran.stored t, eqb_refl t, there) refl;
            context = rw (eqb_refl t) refl;
            same_low = refl;
            same_high = refl;
          };
          runs = λ mine.
              let own : update a.contexts t (context_of (v7m-Handler scratch) a.cpu) s.current_task
                  ≡ context_of (v7m-Handler scratch) a.cpu =
                rw (mine, eqb_refl t) refl in
              (
                ran.registers ∙ ap (λ (x : Context). x.registers) own,
                ran.psp ∙ ap (λ (x : Context). x.psp) own,
              );
        }

    Turn-Follows :
        {b c : Machine}
        → Follows t a b
        → (b.state.current_task == t) ≡ false
        → Turn scratch f padding b c
        → Follows t a c
    Turn-Follows {b} {c} now other turn =
        let waiting = now.waits other in
        let stepped = Turn-Stepped scratch b now.sound f padding turn in
        let still = stepped.still t waiting.info waiting.there other in
        record {
          above = now.above;
          sound = stepped.sound;
          main = stepped.main ∙ now.main;
          stack = λ k from to.
              still.stack k (omega (arith, waiting.same_low, now.above, from))
                (omega (arith, waiting.same_low, waiting.same_high, now.above, from, to))
              ∙ now.stack k from to;
          waits = λ elsewhere. record {
            info = still.info;
            there = still.there;
            context = still.same_context ∙ waiting.context;
            same_low = still.same_low ∙ waiting.same_low;
            same_high = still.same_high ∙ waiting.same_high;
          };
          runs = λ mine.
              let (registers, psp) = stepped.arrives t other mine in
              (
                registers ∙ ap (λ (x : Context). x.registers) waiting.context,
                psp ∙ ap (λ (x : Context). x.psp) waiting.context,
              );
        }

    Away-Follows : {b e : Machine} → Follows t a b → Away scratch f padding t b e → Follows t a e
    Away-Follows now start = now
    Away-Follows now (later {c} before other turn) =
        Turn-Follows (Away-Follows now before) other turn

    -- Preemption is transparent. In a sound system, when the handler switches away from a task that
    -- is in the table, and after any turns of the others,
    -- with calls, interrupts, new tasks and further switches among them, the task runs again: then
    -- the registers that its context has, its stack pointer, and all of its stack that was in use
    -- are what they were, and so is the main stack pointer. The system is sound again.
    pub preempted-Resumed :
        (b e : Machine)
        → Switch scratch f a b
        → Away scratch f padding a.state.current_task b e
        → e.state.current_task ≡ a.state.current_task
        → Sound scratch e × Resumed a.state.current_task a e
    preempted-Resumed b e switch away back =
        let end = Away-Follows (Switch-Follows switch) away in
        let (registers, psp) = end.runs back in
        (end.sound, record { registers = registers; psp = psp; main = end.main; stack = end.stack })
