-- ===== src/Program/Keeping.antt =====
-- What a call other than a context switch leaves alone: the memory, the task that runs, and where
-- the others are to be continued.
use taskette.Base.{ℕ, ◌≡◌, refl, ap, true, false, Option, none, some, is_some, arith, ◌==◌}
use taskette.Heapless.{DequeLib, IndexMapLib, BinaryHeapLib}
use taskette.Memory.{Memory}
use taskette.Kernel.{TaskInfo, SchedulerState, Timer, World, save, yield_now}
use taskette.Scheduler.Invariant.{Inv}
use taskette.Scheduler.Invariant.Blocking.{Blocks, Unblocks}
use taskette.Scheduler.Invariant.Removing.{Removes}
use taskette.Program.{
  Call, switch_at, wake_up, sleep_until, on_tick, block_self, return_self, spawn_task, Good,
}

-- The calls that neither switch nor write a new stack.
abbrev pub IsQuiet : Call → Type 0
IsQuiet (switch_at sp) = ⊥
IsQuiet (spawn_task pc arg stack priority) = ⊥
IsQuiet (wake_up t) = Unit
IsQuiet (sleep_until time) = Unit
IsQuiet on_tick = Unit
IsQuiet block_self = Unit
IsQuiet return_self = Unit

-- Where a task is to be continued.
abbrev pub place : Option TaskInfo → Option ℕ
place none = none
place (some i) = some i.stack_pointer

place-is_some : (o p : Option TaskInfo) → place o ≡ place p → is_some o ≡ is_some p
place-is_some none none e = refl
place-is_some none (some j) e = cc
place-is_some (some i) none e = cc
place-is_some (some i) (some j) e = refl

module _ ⦃d : DequeLib⦄ ⦃m : IndexMapLib⦄ where
  -- The same task runs, the others are to be continued where they were, and none is new.
  pub record SamePlaces (s s' : SchedulerState) : Type 0 where
    pub runs : s'.current_task ≡ s.current_task
    pub others :
        (t : ℕ) → (s.current_task == t) ≡ false → place (m.get s'.tasks t) ≡ place (m.get s.tasks t)
    pub old : (t : ℕ) → is_some (m.get s'.tasks t) ≡ true → is_some (m.get s.tasks t) ≡ true

  pub SamePlaces-self : (s : SchedulerState) → SamePlaces s s
  SamePlaces-self s = record { runs = refl; others = λ t other. refl; old = λ t there. there }

  SamePlaces-all :
      (s s' : SchedulerState)
      → s'.current_task ≡ s.current_task
      → ((t : ℕ) → place (m.get s'.tasks t) ≡ place (m.get s.tasks t))
      → SamePlaces s s'
  SamePlaces-all s s' runs same = record {
    runs = runs;
    others = λ t other. same t;
    old = λ t there. cc (place-is_some (m.get s'.tasks t) (m.get s.tasks t) (same t), there);
  }

  pub Blocks-SamePlaces : {t : ℕ} {s s' : SchedulerState} → Blocks t s s' → SamePlaces s s'
  Blocks-SamePlaces {t} {s} {s'} b =
      SamePlaces-all s s' b.runs
        (λ u. ground (arith, b.now u, b.was, ap (m.get s.tasks) {x = t} {y = u}))

  pub Unblocks-SamePlaces : {t : ℕ} {s s' : SchedulerState} → Unblocks t s s' → SamePlaces s s'
  Unblocks-SamePlaces {t} {s} {s'} b =
      SamePlaces-all s s' b.runs
        (λ u. ground (arith, b.now u, b.was, ap (m.get s.tasks) {x = t} {y = u}))

  pub Removes-SamePlaces : {s s' : SchedulerState} → Removes s.current_task s s' → SamePlaces s s'
  Removes-SamePlaces {s} {s'} r = record {
    runs = r.runs;
    others = λ t other. rw (r.now t, other);
    old = λ t there. ground (arith, r.now t, there);
  }

module _ ⦃d : DequeLib⦄ ⦃m : IndexMapLib⦄ ⦃h : BinaryHeapLib⦄ where
  pub record Keeps (memory : Memory) (s : SchedulerState) (w : World) : Type 0 where
    pub good : Good w
    pub same_memory : w.memory ≡ memory
    pub places : SamePlaces s good.state

  module _ (w : World) (s : SchedulerState) (timer : Timer) (clock : w.timer ≡ some timer) where
    pub saved-Keeps :
        (s' : SchedulerState) → Inv s' → SamePlaces s s' → Keeps w.memory s (save w s')
    saved-Keeps s' inv places = record {
      good = record { state = s'; here = refl; inv = inv; timer = timer; clock = clock };
      same_memory = refl;
      places = places;
    }

    pub requested-Keeps :
        (s' : SchedulerState) → Inv s' → SamePlaces s s' → Keeps w.memory s (yield_now (save w s'))
    requested-Keeps s' inv places = record {
      good = record { state = s'; here = refl; inv = inv; timer = timer; clock = clock };
      same_memory = refl;
      places = places;
    }
