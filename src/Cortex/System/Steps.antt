-- ===== src/Cortex/System/Steps.antt =====
-- Every turn of the system keeps it sound.
use taskette.Base.{
  ℕ, ◌-◌, ◌≡◌, refl, ap, sym, subst, ◌∙◌, false, some, arith, ◌==◌, some-inj, eqb_refl,
}
use taskette.Heapless.{DequeLib, IndexMapLib, BinaryHeapLib}
use taskette.Memory.{Memory}
use taskette.Machine.{Registers}
use taskette.Machine.Frames.{SameInside}
use taskette.Outcome.{Outcome, Features}
use taskette.Kernel.{TaskInfo, SchedulerState, World, Timer}
use taskette.Scheduler.Invariant.{Inv}
use taskette.Program.Keeping.{SamePlaces, SamePlaces-self}
use taskette.Program.Ending.{Kept}
use taskette.Program.Calls.{perform-Kept}
use taskette.Cortex.PendSv.{Cpu, sp}
use taskette.Cortex.Stack.{arch}
use taskette.Contexts.Keeping.{Frames-kept, still_there}
use taskette.Cortex.Multitasking.{Holds, Holds-frame, CpuFrames}
use taskette.Cortex.Multitasking.Variants.{v7m-Handler}
use taskette.Cortex.System.{Machine, Sound, Turn, works, calls, spawns, switches, handled}
use taskette.Cortex.System.Still.{Stepped}
use taskette.Cortex.System.Spawning.{spawns-Stepped}
use taskette.Cortex.System.Handling.{handled-Stepped}

module _ ⦃d : DequeLib⦄ ⦃m : IndexMapLib⦄ ⦃h : BinaryHeapLib⦄ where
  module _ (scratch : Registers) (a : Machine) (ok_a : Sound scratch a) where
    moved :
        (memory : Memory)
        → ((t : ℕ) (i : TaskInfo)
            → m.get a.state.tasks t ≡ some i
            → (a.state.current_task == t) ≡ false
            → SameInside (a.low t) (a.high t - a.low t) a.cpu.memory memory)
        → CpuFrames (v7m-Handler scratch) a.state memory a.contexts a.low a.high
    moved memory same =
        Frames-kept (SamePlaces-self a.state) (Holds (v7m-Handler scratch))
          (Holds-frame (v7m-Handler scratch)) a.world.memory memory a.contexts a.low a.high
          ok_a.frames
          (λ t i there other b from to.
            let (holds, from_low, to_high) = ok_a.frames.held t i there other in
            same t i there other b (omega (arith, from_low, from)) (omega (arith, to_high, to))
            ∙ ap (λ (k : Memory). k b) ok_a.shared)

    works-Stepped :
        (c : Cpu)
        → c.reg sp ≡ a.cpu.reg sp
        → ((t : ℕ) (i : TaskInfo)
            → m.get a.state.tasks t ≡ some i
            → (a.state.current_task == t) ≡ false
            → SameInside (a.low t) (a.high t - a.low t) a.cpu.memory c.memory)
        → Stepped scratch a (record a { cpu = c; world = record (a.world) { memory = c.memory } })
    works-Stepped c main same = record {
      sound = record {
        here = ok_a.here;
        clock = ok_a.clock;
        inv = ok_a.inv;
        shared = refl;
        frames = moved c.memory same;
      };
      main = main;
      still = λ t i there other. record {
        info = i;
        there = there;
        same_context = refl;
        same_low = refl;
        same_high = refl;
        stack = same t i there other;
      };
      arrives = λ t other runs. absurd (ground (arith, other, runs, eqb_refl t));
    }

    module _ (w : World) (s : SchedulerState) (timer : Timer) (here : w.scheduler_state ≡ some s)
        (clock : w.timer ≡ some timer) where
      -- After a call that is quiet.
      quiet-Stepped :
          (r : Outcome (Unit {0}))
          → Kept a.world.memory a.state (r, w)
          → Stepped scratch a (record a { world = w; state = s; timer = timer })
      quiet-Stepped r (no_panic, keeps) =
          let same : keeps.good.state ≡ s =
            some-inj (keeps.good.state) s (sym (keeps.good.here) ∙ here) in
          let places : SamePlaces a.state s = subst (SamePlaces a.state) same keeps.places in
          record {
            sound = record {
              here = here;
              clock = clock;
              inv = subst Inv same (keeps.good.inv);
              shared = ok_a.shared ∙ sym keeps.same_memory;
              frames =
                  Frames-kept places (Holds (v7m-Handler scratch))
                    (Holds-frame (v7m-Handler scratch)) a.world.memory w.memory a.contexts a.low
                    a.high ok_a.frames
                    (λ t i there other b from to. ap (λ (k : Memory). k b) keeps.same_memory);
            };
            main = refl;
            still = λ t i there other.
                let (j, at) = still_there places t i there other in
                record {
                  info = j;
                  there = at;
                  same_context = refl;
                  same_low = refl;
                  same_high = refl;
                  stack = λ b from to. refl;
                };
            arrives = λ t other runs. absurd (ground (arith, other, runs, places.runs, eqb_refl t));
          }

    -- Each turn leaves the system sound, and the main stack pointer as it was; a task that does not
    -- run, of those that the table has, stays in the table and keeps its context, and no byte of
    -- its stack changes; and a task that runs after the turn, and did not before, runs with the
    -- registers and the stack pointer of its context.
    pub Turn-Stepped :
        (f : Features) (padding : ℕ) {b : Machine}
        → Turn scratch f padding a b
        → Stepped scratch a b
    Turn-Stepped f padding (works c main same) = works-Stepped c main same
    Turn-Stepped f padding (calls c r w s timer quiet allowed e here clock) =
        quiet-Stepped w s timer here clock r (
          subst (Kept a.world.memory a.state) e (
            perform-Kept a.world a.state a.timer ok_a.here ok_a.clock ok_a.inv f (arch padding) c
              quiet allowed))
    Turn-Stepped f padding (spawns pc arg stack priority id w s timer i fresh e here clock at) =
        spawns-Stepped scratch a ok_a f padding pc arg stack priority id w s timer i fresh e here
          clock at
    Turn-Stepped f padding (switches (handled next w s runnable above below intact e here)) =
        handled-Stepped scratch a ok_a f next w s runnable above below intact e here
