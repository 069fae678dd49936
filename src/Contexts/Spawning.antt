-- ===== src/Contexts/Spawning.antt =====
-- A task that is spawned with its first frame on a stack of its own.
use taskette.Base.{
  ℕ, suc, ◌≤◌, ◌≡◌, sym, subst, ◌∙◌, ◌⊎◌, inl, inr, Bool, false, some, arith, ◌==◌, if◌then◌else◌,
  update, Bool-cases, eqb→eq, ne→eqb, some-inj, ◌+◌, ap,
}
use taskette.Heapless.{DequeLib, IndexMapLib}
use taskette.Memory.{Memory}
use taskette.Machine.Frames.{SameInside}
use taskette.Kernel.{TaskInfo, SchedulerState}
use taskette.Scheduler.Invariant.{Inv}
use taskette.Scheduler.Invariant.Spawning
use taskette.Contexts.{Context, Frames}

module _ (Holds : Memory → ℕ → Context → Type 0)
    (moves : (m m' : Memory) (p : ℕ) (x : Context)
      → SameInside p x.size m m'
      → Holds m p x
      → Holds m' p x)
    ⦃d : DequeLib⦄ ⦃m : IndexMapLib⦄ (s s' : SchedulerState) (inv : Inv s) (old memory : Memory)
    (block : TaskInfo) (first : Context) (start end : ℕ)
    (outside : (b : ℕ) → (suc b ≤ start) ⊎ (end ≤ b) → memory b ≡ old b)
    (prepared : Holds memory block.stack_pointer first) (from_start : start ≤ block.stack_pointer)
    (to_end : block.stack_pointer + first.size ≤ end) (x : ℕ → Context) (low high : ℕ → ℕ)
    (frames : Frames Holds s old x low high)
    (away : (u : ℕ) (j : TaskInfo) → m.get s.tasks u ≡ some j → (end ≤ low u) ⊎ (high u ≤ start))
    (current_away : (end ≤ low s.current_task) ⊎ (high s.current_task ≤ start))
    (made : Spawning.Registers (suc s.last_task_id) block s s') where
  abbrev t : ℕ
  t = suc s.last_task_id

  kept :
      (u : ℕ) (i : TaskInfo)
      → m.get s.tasks u ≡ some i
      → (s.current_task == u) ≡ false
      → Holds memory i.stack_pointer (x u)
  kept u i there other =
      let (holds, from_low, to_high) = frames.held u i there other in
      moves old memory i.stack_pointer (x u)
        (λ b from to. outside b (ground (arith, away u i there))) holds

  -- The new task has the context in its first frame, and the others keep theirs.
  pub Frames-spawned :
      Frames Holds s' memory (update x t first) (update low t start) (update high t end)
  Frames-spawned =
      let current_old : (t == s.current_task) ≡ false =
        ne→eqb t s.current_task (λ e. absurd (omega (arith, inv.current))) in
      record {
        held = λ u i there other. elim (Bool-cases (t == u)) [
          | inl new ↦
              let same : i ≡ block = some-inj i block (
                sym there
                ∙ made.now u
                ∙ ap (λ (b : Bool). if b then some block else m.get s.tasks u) new) in
              rw (new, same) (prepared, from_start, to_end)
          | inr old_one ↦
              let before : m.get s.tasks u ≡ some i = ground (arith, made.now u, old_one, there) in
              let other' : (s.current_task == u) ≡ false = rw (← made.runs) other in
              let (holds, from_low, to_high) = frames.held u i before other' in
              rw old_one (kept u i before other', from_low, to_high)
        ];
        apart = λ u k i j at_u at_k other. ground (
          arith,
          made.now u,
          made.now k,
          frames.apart u k i j,
          away u i,
          away k j,
          eqb→eq t u,
          eqb→eq t k,
        );
        current_apart = λ u j at other.
            subst
              (λ (k : ℕ).
                (update high t end k ≤ update low t start u)
                ⊎ (update high t end u ≤ update low t start k))
              (sym made.runs)
              (rw current_old (elim (Bool-cases (t == u)) [
                | inl new ↦ rw new (ground (arith, current_away))
                | inr old_one ↦
                    let before : m.get s.tasks u ≡ some j =
                      ground (arith, made.now u, old_one, at) in
                    rw old_one (frames.current_apart u j before (rw (← made.runs) other))
              ]));
      }
