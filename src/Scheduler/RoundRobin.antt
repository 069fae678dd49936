-- ===== src/Scheduler/RoundRobin.antt =====
-- Tasks of the highest priority take turns: one switch after the other, with no other call in
-- between, brings each to the processor in the order of its queue.
use taskette.Base.{
  ℕ, suc, ◌≤◌, ◌<◌, ◌≡◌, refl, ap, ◌∙◌, subst, false, ◌&&◌, Option, none, some, List, [], ◌∷◌, ◌++◌,
  arith, ◌==◌, count, length, eqb_refl, Bool-cases, Option-cases, inl, inr,
}
use mathlib.Core.List.{append_assoc}
use taskette.Heapless.{DequeLib, IndexMapLib}
use taskette.Memory.{Memory}
use taskette.Outcome.{Outcome, ok, ◌>>=◌, Features}
use taskette.Kernel.{TaskInfo, SchedulerState, num_queues}
use taskette.Scheduler.Canary.{check_stack_canary}
use taskette.Scheduler.Queues.Effects.{line}
use taskette.Scheduler.Switch.{switch}
use taskette.Scheduler.Invariant.{Inv}
use taskette.Scheduler.Invariant.Storing.{back, CanaryOkOf, CanaryOk}
use taskette.Scheduler.Invariant.Switching.{Switches, switch-Switches}

module _ ⦃d : DequeLib⦄ ⦃m : IndexMapLib⦄ where
  abbrev run_on :
      (SchedulerState → Outcome SchedulerState) → ℕ × SchedulerState → Outcome SchedulerState
  run_on k (sp, s) = k s

  -- One call of `select_task` for each stack pointer at which a task is left.
  unfoldable pub switch_all : Features → Memory → List ℕ → SchedulerState → Outcome SchedulerState
  switch_all f memory [] s = ok s
  switch_all f memory (sp ∷ sps) s = switch f memory s sp >>= run_on (switch_all f memory sps)

  -- No ready task has a priority above `p`.
  abbrev pub Top : ℕ → SchedulerState → Type 0
  Top p s = (t : ℕ) (i : TaskInfo) → m.get s.tasks t ≡ some i → i.blocked ≡ false → i.priority ≤ p

  -- No canary is broken, where they are looked at.
  abbrev pub AllCanariesOk : Features → Memory → SchedulerState → Type 0
  AllCanariesOk f memory s =
      (t : ℕ) (i : TaskInfo)
      → m.get s.tasks t ≡ some i
      → (f.stack_canary && check_stack_canary memory i.stack_limit) ≡ false

  module _ (f : Features) (memory : Memory) where
    canary-of_all : (s : SchedulerState) → AllCanariesOk f memory s → CanaryOk f memory s
    canary-of_all s all = by_block (m.get s.tasks s.current_task) (all s.current_task)
      where
        by_block :
            (o : Option TaskInfo)
            → ((i : TaskInfo)
                → o ≡ some i
                → (f.stack_canary && check_stack_canary memory i.stack_limit) ≡ false)
            → CanaryOkOf f memory o
        by_block none h = tt
        by_block (some i) h = λ _. h i refl

    module _ (s s' : SchedulerState) (sp sp' : ℕ) (sw : Switches s sp s' sp') where
      -- A block after the switch is one from before, up to its stack pointer.
      before-switch :
          (t : ℕ) (i : TaskInfo)
          → m.get s'.tasks t ≡ some i
          → (j : TaskInfo) × (m.get s.tasks t ≡ some j)
            × (j.priority ≡ i.priority)
            × (j.blocked ≡ i.blocked)
            × (j.stack_limit ≡ i.stack_limit)
      before-switch t i at = elim (Bool-cases (s.current_task == t)) [
        | inr other ↦ (i, ground (arith, sw.stored t, other, at), refl, refl, refl)
        | inl current ↦ elim (Option-cases (m.get s.tasks t)) [
          | inl absent ↦ absurd (ground (arith, sw.stored t, current, at, absent))
          | inr (j, there) ↦ (
            j,
            there,
            ground (arith, sw.stored t, current, at, there),
            ground (arith, sw.stored t, current, at, there),
            ground (arith, sw.stored t, current, at, there),
          )
        ]
      ]

      switch-Top : (p : ℕ) → Top p s → Top p s'
      switch-Top p top t i at free =
          let (j, there, same, ready, limit) = before-switch t i at in
          rw (← same) (top t j there (ready ∙ free))

      switch-AllCanariesOk : AllCanariesOk f memory s → AllCanariesOk f memory s'
      switch-AllCanariesOk all t i at =
          let (j, there, same, ready, limit) = before-switch t i at in rw (← limit) (all t j there)

      -- The queue that is served is that of the highest priority.
      serves-top :
          (p t : ℕ) (i : TaskInfo)
          → Top p s
          → m.get s.tasks t ≡ some i
          → i.blocked ≡ false
          → i.priority ≡ p
          → sw.info.priority ≡ p
      serves-top p t i top at free same = omega (
        arith,
        sw.highest t i at free,
        switch-Top p top s'.current_task sw.info sw.there sw.ready,
      )

    -- One switch serves the first of the queue.
    record Turn (p x : ℕ) (rest : List ℕ) (s : SchedulerState) (sp : ℕ) : Type 0 where
      sp' : ℕ
      s' : SchedulerState
      runs : switch f memory s sp ≡ ok (sp', s')
      inv : Inv s'
      all : AllCanariesOk f memory s'
      top : Top p s'
      now : s'.current_task ≡ x
      moved : line s'.queues p ≡ rest ++ back s p
      info : TaskInfo
      there : m.get s'.tasks s'.current_task ≡ some info
      ready : info.blocked ≡ false
      level : info.priority ≡ p

    one-Turn :
        (p x : ℕ) (rest : List ℕ) (s : SchedulerState) (sp : ℕ)
        → p < num_queues
        → Inv s
        → AllCanariesOk f memory s
        → Top p s
        → line s.queues p ≡ x ∷ rest
        → Turn p x rest s sp
    one-Turn p x rest s sp small inv all top stands =
        let (sp', s', runs, sw) = switch-Switches f memory s inv sp (canary-of_all s all) in
        let (i, there, same, ready) =
          inv.placed.listed p x small (ground (arith, ap (count x) stands, eqb_refl x)) in
        let served : sw.info.priority ≡ p = serves-top s s' sp sp' sw p x i top there ready same in
        let served_front : line s.queues p ++ back s p ≡ s'.current_task ∷ line s'.queues p =
          subst (λ (q : ℕ). line s.queues q ++ back s q ≡ s'.current_task ∷ line s'.queues q) served
            sw.front in
        let front : x ∷ (rest ++ back s p) ≡ s'.current_task ∷ line s'.queues p =
          rw stands at served_front in
        record {
          sp' = sp';
          s' = s';
          runs = runs;
          inv = sw.inv;
          all = switch-AllCanariesOk s s' sp sp' sw all;
          top = switch-Top s s' sp sp' sw p top;
          now = cc front;
          moved = cc front;
          info = sw.info;
          there = sw.there;
          ready = sw.ready;
          level = served;
        }

    -- Task `a` runs, and `b` is the only other ready task of its priority, above which none is
    -- ready.
    pub record Pair (p a b : ℕ) (s : SchedulerState) : Type 0 where
      pub inv : Inv s
      pub all : AllCanariesOk f memory s
      pub top : Top p s
      pub runs : s.current_task ≡ a
      pub waits : line s.queues p ≡ b ∷ []
      pub info : TaskInfo
      pub there : m.get s.tasks s.current_task ≡ some info
      pub ready : info.blocked ≡ false
      pub level : info.priority ≡ p

    -- A switch swaps the two.
    pub Pair-swaps :
        (p a b : ℕ) (s : SchedulerState) (sp : ℕ)
        → p < num_queues
        → Pair p a b s
        → (sp' : ℕ) × (s' : SchedulerState) × (switch f memory s sp ≡ ok (sp', s')) × Pair p b a s'
    Pair-swaps p a b s sp small pair =
        let turn = one-Turn p b [] s sp small pair.inv pair.all pair.top pair.waits in
        let at_back : back s p ≡ a ∷ [] =
          ground (arith, pair.there, pair.ready, pair.level, pair.runs, eqb_refl p) in
        (
          turn.sp',
          turn.s',
          turn.runs,
          record {
            inv = turn.inv;
            all = turn.all;
            top = turn.top;
            runs = turn.now;
            waits = turn.moved ∙ at_back;
            info = turn.info;
            there = turn.there;
            ready = turn.ready;
            level = turn.level;
          },
        )

    -- In a good state with all canaries intact and no ready task of a priority above `p`:
    -- A task with `length xs` tasks before it runs after `length xs + 1` switches.
    pub switch_all-turn :
        (p : ℕ)
        → p < num_queues
        → (xs : List ℕ) (t : ℕ) (ys sps : List ℕ) (s : SchedulerState) → Inv s
        → AllCanariesOk f memory s
        → Top p s
        → line s.queues p ≡ xs ++ t ∷ ys
        → length sps ≡ suc (length xs)
        → (s' : SchedulerState) × (switch_all f memory sps s ≡ ok s')
          × Inv s'
          × (s'.current_task ≡ t)
    unfolding switch_all
    switch_all-turn p small xs t ys [] s inv all top stands count_ok = absurd (omega arith)
    switch_all-turn p small [] t ys (sp ∷ []) s inv all top stands enough =
        let turn = one-Turn p t ys s sp small inv all top stands in
        (turn.s', rw (turn.runs), turn.inv, turn.now)
    switch_all-turn p small [] t ys (sp ∷ sp₂ ∷ sps) s inv all top stands enough =
        absurd (omega arith)
    switch_all-turn p small (x ∷ xs) t ys (sp ∷ sps) s inv all top stands enough =
        let turn = one-Turn p x (xs ++ t ∷ ys) s sp small inv all top stands in
        let (s', runs, good, now) =
          switch_all-turn p small xs t (ys ++ back s p) sps turn.s' turn.inv turn.all turn.top
            (turn.moved ∙ append_assoc xs (t ∷ ys) (back s p)) (omega arith) in
        (s', rw (turn.runs) runs, good, now)
