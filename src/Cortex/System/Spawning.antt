-- ===== src/Cortex/System/Spawning.antt =====
-- A turn in which a task is spawned.
use taskette.Base.{
  ℕ, suc, ◌≡◌, refl, ap, sym, subst, ◌∙◌, false, some, List, arith, ◌==◌, update, if◌then◌else◌,
  some-inj, ne→eqb, eqb_refl,
}
use taskette.Heapless.{DequeLib, IndexMapLib, BinaryHeapLib}
use taskette.Memory.{Memory}
use taskette.Machine.{Registers}
use taskette.Outcome.{Outcome, ok, Features}
use taskette.Kernel.{TaskInfo, SchedulerState, World, Timer, yield_now}
use taskette.Scheduler.Tasks.{StackRange, spawn}
use taskette.Scheduler.Invariant.{Inv}
use taskette.Cortex.Stack.{arch}
use taskette.Cortex.Multitasking.Variants.{first_context}
use taskette.Cortex.Multitasking.Spawning.{
  spawn-Frames, spawn-outside, unpend_memory, unpend_state, block,
}
use taskette.Cortex.System.{Machine, Sound, Fresh}
use taskette.Cortex.System.Still.{Stepped}

module _ ⦃d : DequeLib⦄ ⦃m : IndexMapLib⦄ ⦃h : BinaryHeapLib⦄ where
  module _ (scratch : Registers) (a : Machine) (ok_a : Sound scratch a) where
    pub spawns-Stepped :
        (f : Features) (padding pc : ℕ) (arg : List ℕ) (stack : StackRange) (priority id : ℕ)
        (w : World) (s : SchedulerState) (timer : Timer) (i : TaskInfo)
        → Fresh a pc arg stack priority
        → spawn f (arch padding) pc arg stack priority a.world ≡ (ok id, w)
        → w.scheduler_state ≡ some s
        → w.timer ≡ some timer
        → m.get s.tasks id ≡ some i
        → Stepped scratch a (record a {
          cpu = record (a.cpu) { memory = w.memory };
          world = w;
          state = s;
          timer = timer;
          contexts = update a.contexts id (first_context scratch i.stack_pointer);
          low = update a.low id stack.start;
          high = update a.high id stack.end;
        })
    spawns-Stepped f padding pc arg stack priority id w s timer i fresh e here clock at =
        let (s', v, runs, here', made, frames, hardware, copied) =
          spawn-Frames scratch f padding a.world a.state ok_a.here ok_a.inv pc arg stack priority
            fresh.room fresh.small fresh.aligned fresh.word a.contexts a.low a.high ok_a.frames
            fresh.away fresh.current_away fresh.ready fresh.space fresh.unwrapped in
        let outside =
          spawn-outside scratch f padding a.world a.state ok_a.here ok_a.inv pc arg stack priority
            fresh.room fresh.small fresh.aligned fresh.word fresh.ready fresh.space fresh.unwrapped
            (ok id) w e in
        let made_block : TaskInfo =
          block scratch f padding a.world a.state ok_a.here ok_a.inv pc arg stack priority
            fresh.room fresh.small fresh.aligned fresh.word in
        let world : w ≡ (if a.state.started then yield_now v else v) =
          ap (λ (p : Outcome ℕ × World). p.1) (sym e ∙ runs) in
        let answer : ok id ≡ ok (suc a.state.last_task_id) =
          ap (λ (p : Outcome ℕ × World). p.0) (sym e ∙ runs) in
        let new : id ≡ suc a.state.last_task_id = cc in
        let state : s ≡ s' = some-inj s s' (
          sym here
          ∙ ap (λ (k : World). k.scheduler_state) world
          ∙ unpend_state a.state.started v
          ∙ here') in
        let memory : v.memory ≡ w.memory =
          sym (ap (λ (k : World). k.memory) world ∙ unpend_memory a.state.started v) in
        let now : (j : ℕ)
            → m.get s.tasks j ≡ (if id == j then some (made_block) else m.get a.state.tasks j) =
          λ j. rw (state, new) (made.now j) in
        let info : i ≡ made_block =
          some-inj i made_block (sym at ∙ now id ∙ rw (eqb_refl id) refl) in
        let older : (t : ℕ) (j : TaskInfo) → m.get a.state.tasks t ≡ some j → (id == t) ≡ false =
          λ t j there.
            ne→eqb id t
              (λ same. absurd (omega (arith, ok_a.inv.placed.known t j there, new, same))) in
        record {
          sound = record {
            here = here;
            clock = clock;
            inv = subst Inv (sym state) made.inv;
            shared = refl;
            frames = rw (state, ← memory, new, info) frames;
          };
          main = refl;
          still = λ t j there other. record {
            info = j;
            there = rw (now t, older t j there) there;
            same_context = rw (older t j there) refl;
            same_low = rw (older t j there) refl;
            same_high = rw (older t j there) refl;
            stack = λ b from to.
                outside b (ground (arith, fresh.away t j there))
                ∙ ap (λ (k : Memory). k b) (sym ok_a.shared);
          };
          arrives =
              λ t other runs'. absurd (ground (arith, other, runs', made.runs, state, eqb_refl t));
        }
