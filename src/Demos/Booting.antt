-- ===== src/Demos/Booting.antt =====
-- A program that spawns two tasks gets to its idle task.
use taskette.Base.{
  ℕ, ◌+◌, ◌*◌, ◌%◌, ◌^◌, ◌≤◌, ◌<◌, ◌≡◌, refl, ◌∙◌, ◌⊎◌, true, false, none, some, arith, length,
  ◌==◌, if◌then◌else◌,
}
use taskette.Heapless.{DequeLib, IndexMapLib, BinaryHeapLib}
use taskette.Machine.{Registers, padded}
use taskette.Outcome.{Outcome, ok, Features}
use taskette.Kernel.{
  TaskInfo, SchedulerState, SchedulerConfig, Timer, World, max_priority, idle_task_id,
}
use taskette.Scheduler.Init.{Handle, Launch, start}
use taskette.Cortex.Entry.{init_scheduler}
use taskette.Scheduler.Tasks.{StackRange, spawn}
use taskette.Scheduler.Invariant.{Inv}
use taskette.Scheduler.Invariant.Counting.{length-tasks}
use taskette.Contexts.{Context}
use taskette.Cortex.PendSv.{Cpu}
use taskette.Cortex.SysTick.{SysTick, setup, setup_period}
use taskette.Cortex.Stack.{arch}
use taskette.Cortex.System.{Machine, Sound, Fresh}
use taskette.Cortex.System.Booting.{
  init-Sound, spawn-Sound, start-Sound, with_task, booted, Spawned,
}
use taskette.Outcome.Run.{◌>>=◌}
use taskette.Demos.{Job, new_scheduler, run_two}

-- The closure, 72 bytes of frames and the canary fit into the stack, which ends at a multiple of 8.
pub record IsReady (j : Job) : Type 0 where
  pub room : j.stack.start + 16 + padded 8 (length j.closure.captured) + 72 ≤ j.stack.end
  pub small : j.stack.end < 2 ^ 32
  pub aligned : j.stack.end % 8 ≡ 0
  pub word : j.closure.code < 2 ^ 32
  pub ready : j.config.priority ≤ max_priority

abbrev pub Apart : StackRange → StackRange → Type 0
Apart a b = (a.end ≤ b.start) ⊎ (b.end ≤ a.start)

arch-setup :
    (padding clock_freq tick_freq : ℕ) (t : SysTick)
    → setup clock_freq tick_freq ≡ ok t
    → (arch padding).setup clock_freq tick_freq ≡ ok tt
unfolding arch
arch-setup padding clock_freq tick_freq t made = rw (arch, made) refl

module _ ⦃d : DequeLib⦄ ⦃m : IndexMapLib⦄ ⦃h : BinaryHeapLib⦄ where
  -- The task of a job is there and ready.
  abbrev pub IsSpawned : Machine → ℕ → Job → Type 0
  IsSpawned a t j =
      (i : TaskInfo) × (m.get a.state.tasks t ≡ some i)
      × (i.priority ≡ j.config.priority)
      × (i.blocked ≡ false)
      × (a.low t ≡ j.stack.start)
      × (a.high t ≡ j.stack.end)

  -- The program ends with the jump to the idle task, in a sound system that has started, with the
  -- tasks of both jobs.
  abbrev pub Enters : Registers → StackRange → Job → Job → Outcome Launch × World → Type 0
  Enters scratch idle one two result =
      (a : Machine) × (result
        ≡ (ok (record { stack_top = idle.end; stack_bottom = idle.start }), a.world))
      × Sound scratch a
      × (a.state.started ≡ true)
      × (a.state.current_task ≡ idle_task_id)
      × IsSpawned a 1 one
      × IsSpawned a 2 two

  in_order :
      (f : Features) (padding clock_freq : ℕ) (config : SchedulerConfig) (one two : Job)
      (w w0 w1 w2 w3 : World) (handle : Handle) (id id' : ℕ) (l : Launch)
      → init_scheduler f clock_freq config w ≡ (ok (some handle), w0)
      → spawn f
          (arch padding)
          one.closure.code
          one.closure.captured
          one.stack
          one.config.priority
          w0
        ≡ (ok id, w1)
      → spawn f
          (arch padding)
          two.closure.code
          two.closure.captured
          two.stack
          two.config.priority
          w1
        ≡ (ok id', w2)
      → start (arch padding) handle w2 ≡ (ok l, w3)
      → (new_scheduler f clock_freq config >>= λ handle. run_two f (arch padding) handle one two) w
        ≡ (ok l, w3)
  unfolding run_two new_scheduler
  in_order f padding clock_freq config one two w w0 w1 w2 w3 handle id id' l e0 e1 e2 e3 =
      rw (e0, e1, e2) e3

module _ ⦃d : DequeLib⦄ ⦃m : IndexMapLib⦄ ⦃h : BinaryHeapLib⦄ (scratch : Registers) (f : Features)
    (padding clock_freq : ℕ) (config : SchedulerConfig) (c : Cpu) (x : ℕ → Context) (w : World)
    (idle : StackRange) (fresh : w.scheduler_state ≡ none)
    (idle_stack : w.idle_task_stack ≡ some (idle.start, idle.end)) (one two : Job)
    (one_ready : IsReady one) (two_ready : IsReady two) (one_apart : Apart one.stack idle)
    (two_apart : Apart two.stack idle) (both_apart : Apart two.stack one.stack)
    (positive : 0 < config.tick_freq) (slower : config.tick_freq ≤ clock_freq)
    (fits : clock_freq < 0x1000000 * config.tick_freq) where
  -- The program ends with the jump to the idle task, in a sound system with both tasks.
  abbrev pub Boots : Type 0
  Boots =
      Enters scratch idle one two (
        (new_scheduler f clock_freq config >>= λ handle. run_two f (arch padding) handle one two) w)

  abbrev handle : Handle
  handle = record {
    clock_freq = clock_freq;
    idle_task_stack_start = idle.start;
    idle_task_stack_end = idle.end;
  }

  module _ (w0 : World) (s0 : SchedulerState) (timer0 : Timer)
      (runs0 : init_scheduler f clock_freq config w ≡ (ok (some handle), w0))
      (config0 : w0.scheduler_config ≡ some config) (current0 : s0.current_task ≡ idle_task_id)
      (last0 : s0.last_task_id ≡ idle_task_id) where
    abbrev a0 : Machine
    a0 = booted scratch f x (λ _. idle.start) (λ _. idle.end) c w0 s0 timer0

    fresh0 : Inv s0 → Fresh a0 one.closure.code one.closure.captured one.stack one.config.priority
    fresh0 inv = record {
      room = one_ready.room;
      small = one_ready.small;
      aligned = one_ready.aligned;
      word = one_ready.word;
      away = λ u j there. one_apart;
      current_away = one_apart;
      ready = one_ready.ready;
      space = omega (arith, length-tasks s0 inv, last0);
      unwrapped = omega (arith, last0);
    }

    module _ (w1 : World) (s1 : SchedulerState) (i1 : TaskInfo)
        (runs1 : spawn f
            (arch padding)
            one.closure.code
            one.closure.captured
            one.stack
            one.config.priority
            w0
          ≡ (ok 1, w1))
        (config1 : w1.scheduler_config ≡ w0.scheduler_config) (last1 : s1.last_task_id ≡ 1)
        (current1 : s1.current_task ≡ s0.current_task)
        (now1 : (t : ℕ) → m.get s1.tasks t ≡ (if 1 == t then some i1 else m.get s0.tasks t))
        (priority1 : i1.priority ≡ one.config.priority) (awake1 : i1.blocked ≡ false) where
      abbrev a1 : Machine
      a1 = with_task scratch a0 1 one.stack w1 s1 i1

      fresh1 : Inv s1 → Fresh a1 two.closure.code two.closure.captured two.stack two.config.priority
      fresh1 inv = record {
        room = two_ready.room;
        small = two_ready.small;
        aligned = two_ready.aligned;
        word = two_ready.word;
        away = λ u j there. ground (arith, two_apart, both_apart);
        current_away = rw (current1, current0) two_apart;
        ready = two_ready.ready;
        space = omega (arith, length-tasks s1 inv, last1);
        unwrapped = omega (arith, last1);
      }

      second :
          Spawned scratch f padding a1 two.closure.code two.closure.captured two.stack
            two.config.priority 2
          → Boots
      second
            (
              w2, s2, i2, runs2, config2, last2, current2, started2, now2, priority2, awake2,
              sound2,
            ) =
          let (systick, made, counts, short, late, soon) =
            setup_period clock_freq config.tick_freq positive slower fits in
          let (w3, timer3, runs3, sound3) =
            start-Sound scratch f padding (with_task scratch a1 2 two.stack w2 s2 i2) sound2 handle
              config (config2 ∙ config1 ∙ config0)
              (arch-setup padding clock_freq config.tick_freq systick made) in
          (
            record (with_task scratch a1 2 two.stack w2 s2 i2) {
              world = w3;
              state = record s2 { started = true };
              timer = timer3;
            },
            in_order f padding clock_freq config one two w w0 w1 w2 w3 handle 1 2
                (record { stack_top = idle.end; stack_bottom = idle.start }) runs0 runs1 runs2
                runs3,
            sound3,
            refl,
            current2 ∙ current1 ∙ current0,
            (i1, now2 1 ∙ now1 1, priority1, awake1, refl, refl),
            (i2, now2 2, priority2, awake2, refl, refl),
          )

    first :
        Spawned scratch f padding a0 one.closure.code one.closure.captured one.stack
          one.config.priority 1
        → Boots
    first (w1, s1, i1, runs1, config1, last1, current1, started1, now1, priority1, awake1, sound1) =
        second w1 s1 i1 runs1 config1 last1 current1 now1 priority1 awake1 (
          spawn-Sound scratch f padding
            (a1 w1 s1 i1 runs1 config1 last1 current1 now1 priority1 awake1) sound1 two.closure.code
            two.closure.captured two.stack two.config.priority 2 (omega (arith, last1))
            (fresh1 w1 s1 i1 runs1 config1 last1 current1 now1 priority1 awake1 sound1.inv))

  -- Before the scheduler is there, with the idle task's stack still to be taken, on a chip whose
  -- timer can make the ticks, and with two jobs whose stacks have room for the closures and lie
  -- apart, from each other and from the idle task's stack: the program ends with the jump to the
  -- top of the idle task's stack, neither with an error nor with a panic. The system is sound and
  -- has started, the idle task runs, and the tasks 1 and 2 of the jobs are ready, with their
  -- priorities and on their stacks.
  pub run_two-Boots : Boots
  run_two-Boots =
      let (w0, s0, timer0, runs0, config0, current0, last0, started0, sound0) =
        init-Sound scratch f x (λ _. idle.start) (λ _. idle.end) c clock_freq idle.start idle.end
          config w fresh idle_stack in
      first w0 s0 timer0 runs0 config0 current0 last0 (
        spawn-Sound scratch f padding (a0 w0 s0 timer0 runs0 config0 current0 last0) sound0
          one.closure.code one.closure.captured one.stack one.config.priority 1
          (omega (arith, last0)) (fresh0 w0 s0 timer0 runs0 config0 current0 last0 sound0.inv))
