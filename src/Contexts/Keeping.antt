-- ===== src/Contexts/Keeping.antt =====
-- Contexts while no switch is made: they stay where they are.
use taskette.Base.{ℕ, ◌≡◌, false, some, arith, ◌==◌, Option-cases, inl, inr}
use taskette.Heapless.{DequeLib, IndexMapLib}
use taskette.Memory.{Memory}
use taskette.Machine.Frames.{SameInside}
use taskette.Kernel.{TaskInfo, SchedulerState}
use taskette.Program.Keeping.{SamePlaces}
use taskette.Contexts.{Context, Frames}

module _ ⦃d : DequeLib⦄ ⦃m : IndexMapLib⦄ {s s' : SchedulerState} (same : SamePlaces s s') where
  -- A task that does not run was there before, and is to be continued where it was.
  pub was_waiting :
      (t : ℕ) (i : TaskInfo)
      → m.get s'.tasks t ≡ some i
      → (s'.current_task == t) ≡ false
      → ((s.current_task == t) ≡ false)
        × ((j : TaskInfo) × (m.get s.tasks t ≡ some j) × (i.stack_pointer ≡ j.stack_pointer))
  was_waiting t i there other =
      let other' : (s.current_task == t) ≡ false = rw (← same.runs) other in
      elim (Option-cases (m.get s.tasks t)) [
        | inl absent ↦ absurd (ground (arith, same.others t other', there, absent))
        | inr (j, at) ↦ (other', (j, at, ground (arith, same.others t other', there, at)))
      ]

  pub was_there :
      (t : ℕ) (i : TaskInfo)
      → m.get s'.tasks t ≡ some i
      → (j : TaskInfo) × (m.get s.tasks t ≡ some j)
  was_there t i there = elim (Option-cases (m.get s.tasks t)) [
    | inl absent ↦ absurd (ground (arith, same.old t, there, absent))
    | inr found ↦ found
  ]

  -- And the other way round.
  pub still_there :
      (t : ℕ) (i : TaskInfo)
      → m.get s.tasks t ≡ some i
      → (s.current_task == t) ≡ false
      → (j : TaskInfo) × (m.get s'.tasks t ≡ some j)
  still_there t i there other = elim (Option-cases (m.get s'.tasks t)) [
    | inl absent ↦ absurd (ground (arith, same.others t other, there, absent))
    | inr found ↦ found
  ]

  module _ (Holds : Memory → ℕ → Context → Type 0)
      (moves : (m m' : Memory) (p : ℕ) (x : Context)
        → SameInside p x.size m m'
        → Holds m p x
        → Holds m' p x) where
    pub Frames-kept :
        (memory memory' : Memory) (x : ℕ → Context) (low high : ℕ → ℕ)
        → Frames Holds s memory x low high
        → ((t : ℕ) (i : TaskInfo)
            → m.get s.tasks t ≡ some i
            → (s.current_task == t) ≡ false
            → SameInside i.stack_pointer (x t).size memory memory')
        → Frames Holds s' memory' x low high
    Frames-kept memory memory' x low high frames inside = record {
      held = λ t i there other.
          let (other', (j, at, e)) = was_waiting t i there other in
          let (holds, from_low, to_high) = frames.held t j at other' in
          rw e (
            moves memory memory' j.stack_pointer (x t) (inside t j at other') holds,
            from_low,
            to_high,
          );
      apart = λ t u i j at_t at_u other.
          frames.apart t u (was_there t i at_t).0 (was_there u j at_u).0 (was_there t i at_t).1
            (was_there u j at_u).1 other;
      current_apart = λ u j at other. rw same.runs (
          frames.current_apart u (was_there u j at).0 (was_there u j at).1
            (rw (← same.runs) other));
    }
