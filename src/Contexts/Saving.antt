-- ===== src/Contexts/Saving.antt =====
-- `select_task` after the context of the running task has been saved below its stack pointer.
use taskette.Base.{
  ℕ, ◌+◌, ◌-◌, ◌≤◌, ◌≡◌, sym, subst, inl, inr, false, some, arith, ◌==◌, if◌then◌else◌, update,
  Bool-cases, Option-cases, eqb→eq,
}
use taskette.Heapless.{DequeLib, IndexMapLib, BinaryHeapLib}
use taskette.Memory.{Memory}
use taskette.Memory.Words.{SameOutside}
use taskette.Machine.Frames.{SameInside}
use taskette.Outcome.{ok, Features}
use taskette.Kernel.{TaskInfo, SchedulerState, World, save}
use taskette.Scheduler.Switch.{select_task}
use taskette.Scheduler.Invariant.{Inv}
use taskette.Scheduler.Invariant.Storing.{CanaryOk}
use taskette.Scheduler.Invariant.Switching.{Switches, select_task-Switches}
use taskette.Contexts.{Context, Frames}

module _ (Holds : Memory → ℕ → Context → Type 0)
    (moves : (m m' : Memory) (p : ℕ) (x : Context)
      → SameInside p x.size m m'
      → Holds m p x
      → Holds m' p x)
    ⦃d : DequeLib⦄ ⦃m : IndexMapLib⦄ ⦃h : BinaryHeapLib⦄ (f : Features) (w : World)
    (s : SchedulerState) (here : w.scheduler_state ≡ some s) (inv : Inv s) (now : Context)
    (room : now.size ≤ now.psp) (memory : Memory)
    (within : SameOutside (now.psp - now.size) now.size w.memory memory)
    (saved : Holds memory (now.psp - now.size) now) (x : ℕ → Context) (low high : ℕ → ℕ)
    (frames : Frames Holds s w.memory x low high) (above : low s.current_task ≤ now.psp - now.size)
    (below : now.psp ≤ high s.current_task) where
  abbrev p : ℕ
  p = now.psp - now.size

  -- The contexts after the switch.
  abbrev pub put_away : ℕ → Context
  put_away = update x s.current_task now

  untouched :
      (t : ℕ) (i : TaskInfo)
      → m.get s.tasks t ≡ some i
      → (s.current_task == t) ≡ false
      → SameInside i.stack_pointer (x t).size w.memory memory
  untouched t i there other b from to =
      let (holds, from_low, to_high) = frames.held t i there other in
      within b (ground (arith, frames.current_apart t i there other))

  module _ (s' : SchedulerState) (sp' : ℕ) (sw : Switches s p s' sp') where
    -- The tasks after the switch are those from before.
    known :
        (t : ℕ) (i : TaskInfo)
        → m.get s'.tasks t ≡ some i
        → (j : TaskInfo) × (m.get s.tasks t ≡ some j)
          × (i.stack_pointer ≡ (if s.current_task == t then p else j.stack_pointer))
    known t i there = elim (Bool-cases (s.current_task == t)) [
      | inr other ↦ (i, ground (arith, sw.stored t, other, there), rw other)
      | inl current ↦ elim (Option-cases (m.get s.tasks t)) [
        | inl absent ↦ absurd (ground (arith, sw.stored t, current, there, absent))
        | inr (j, at) ↦ (j, at, rw current (ground (arith, sw.stored t, current, there, at)))
      ]
    ]

    -- Every frame is in place, that of the task which goes on too.
    all_held :
        (t : ℕ) (i : TaskInfo)
        → m.get s'.tasks t ≡ some i
        → Holds memory i.stack_pointer (put_away t)
          × (low t ≤ i.stack_pointer)
          × (i.stack_pointer + (put_away t).size ≤ high t)
    all_held t i there = elim (Bool-cases (s.current_task == t)) [
      | inr other ↦
          let before : m.get s.tasks t ≡ some i = ground (arith, sw.stored t, other, there) in
          let (holds, from_low, to_high) = frames.held t i before other in
          rw other (
            moves w.memory memory i.stack_pointer (x t) (untouched t i before other) holds,
            from_low,
            to_high,
          )
      | inl current ↦
          let at : i.stack_pointer ≡ p =
            let (j, was, pointer) = known t i there in rw current at pointer in
          let same : s.current_task ≡ t = eqb→eq s.current_task t current in
          rw (current, at)
            (
              saved,
              subst (λ (u : ℕ). low u ≤ p) same above,
              subst (λ (u : ℕ). p + now.size ≤ high u) same (omega (arith, room, below)),
            )
    ]

    Frames-after : Frames Holds s' memory put_away low high
    Frames-after = record {
      held = λ t i there _. all_held t i there;
      apart = λ t u i j at_t at_u other.
          frames.apart t u (known t i at_t).0 (known u j at_u).0 (known t i at_t).1
            (known u j at_u).1 other;
      current_apart = λ u j at other.
          frames.apart s'.current_task u (known s'.current_task sw.info sw.there).0 (known u j at).0
            (known s'.current_task sw.info sw.there).1 (known u j at).1 other;
    }

  -- The kernel chooses a task and gives the address of its frame, which holds its context; again
  -- every task that does not run has its context, the one that ran too.
  pub select_task-Frames :
      CanaryOk f memory s
      → (sp' : ℕ) × (s' : SchedulerState) × (select_task f p (record w { memory = memory })
          ≡ (ok sp', save (record w { memory = memory }) s'))
        × Switches s p s' sp'
        × Holds memory sp' (put_away s'.current_task)
        × Frames Holds s' memory put_away low high
  select_task-Frames intact =
      let (sp', s', runs, sw) =
        select_task-Switches f (record w { memory = memory }) s p here inv intact in
      let (holds, from_low, to_high) = all_held s' sp' sw s'.current_task sw.info sw.there in
      (
        sp',
        s',
        runs,
        sw,
        subst (λ (q : ℕ). Holds memory q (put_away s'.current_task)) (sym sw.resumes) holds,
        Frames-after s' sp' sw,
      )
