-- ===== src/Futex/Waking.antt =====
-- `wake` wakes the tasks that have waited longest, in their order.
use taskette.Base.{
  ℕ, zero, suc, ◌≤◌, ◌<◌, ◌≡◌, ◌≢◌, refl, ap, sym, ◌∙◌, true, false, Option, none, some, List, [],
  ◌∷◌, ◌++◌, arith, eqb_refl, ltb, if◌then◌else◌, count, length, head?, tail, inl, inr, ◌⊎◌,
}
use mathlib.Core.List.{append-nil}
use taskette.Heapless.{DequeLib, IndexMapLib, BinaryHeapLib}
use taskette.Outcome.{Outcome, ok}
use taskette.Outcome.Run.{continue}
use taskette.Kernel.{TaskInfo, SchedulerState, World, save, yield_now, max_num_tasks}
use taskette.Scheduler.Invariant.{Inv}
use taskette.Scheduler.Invariant.Blocking.{Unblocks}
use taskette.Scheduler.Calls.{unblock_task-Unblocks}
use taskette.Futex.{Shared, wake_then, wake, wake_all}

module _ ⦃d : DequeLib⦄ ⦃m : IndexMapLib⦄ where
  abbrev pub awake : Option TaskInfo → Option TaskInfo
  awake none = none
  awake (some i) = some (record i { blocked = false })

  -- Each task of the list is blocked, and stands in it once; the task that runs is not in it.
  pub record Sleeping (s : SchedulerState) (xs : List ℕ) : Type 0 where
    pub blocked :
        (t : ℕ) → 0 < count t xs → (i : TaskInfo) × (m.get s.tasks t ≡ some i) × (i.blocked ≡ true)
    pub once : (t : ℕ) → count t xs ≤ 1
    pub elsewhere : count s.current_task xs ≡ 0

  module _ (t : ℕ) (xs : List ℕ) (s s' : SchedulerState) (sl : Sleeping s (t ∷ xs))
      (un : Unblocks t s s') where
    Sleeping-tail : Sleeping s' xs
    Sleeping-tail = record {
      blocked = λ a k.
          let (i, there, blocked) = sl.blocked a (ground arith) in
          (i, ground (arith, un.now a, sl.once a, there), blocked);
      once = λ a. ground (arith, sl.once a);
      elsewhere = rw un.runs (ground (arith, sl.elsewhere));
    }

module _ ⦃d : DequeLib⦄ ⦃m : IndexMapLib⦄ ⦃h : BinaryHeapLib⦄ where
  -- `xs` are woken and `ys` are left.
  pub record Wakes (xs ys : List ℕ) (s : SchedulerState) (x x' : Shared) : Type 0 where
    pub s' : SchedulerState
    pub state : x'.world.scheduler_state ≡ some s'
    pub inv : Inv s'
    pub left : d.items x'.futex.waiting_tasks ≡ ys
    pub value : x'.futex.value ≡ x.futex.value
    pub runs : s'.current_task ≡ s.current_task
    pub now :
        (t : ℕ)
        → m.get s'.tasks t
          ≡ (if ltb 0 (count t xs) then awake (m.get s.tasks t) else m.get s.tasks t)

  -- The state after `pop_front`.
  abbrev rest : Shared → Shared
  rest x = record x {
    futex = record (x.futex) { waiting_tasks = (d.pop_front x.futex.waiting_tasks).1 };
  }

  taken :
      (x : Shared) {zs : List ℕ}
      → d.items x.futex.waiting_tasks ≡ zs
      → (d.pop_front x.futex.waiting_tasks).0 ≡ head? zs
  taken x stands = d.pop_front-value x.futex.waiting_tasks ∙ ap head? stands

  drained : (num : ℕ) (ys : List ℕ) → (0 ≡ suc num) ⊎ ((ys ≡ []) × (0 ≤ suc num)) → ys ≡ []
  drained num ys (inl e) = absurd (omega arith)
  drained num ys (inr (e, h)) = e

  away : (t : ℕ) (xs : List ℕ) (s : SchedulerState) → Sleeping s (t ∷ xs) → s.current_task ≢ t
  away t xs s sl e = ground (arith, sl.elsewhere)

  -- In a good state whose waiting tasks to be woken are blocked, once each, and do not run:
  -- `wake num` wakes the first `num` waiting tasks, or all if there are fewer, and leaves the
  -- others waiting.
  pub wake-Wakes :
      (num : ℕ) (xs ys : List ℕ) (x : Shared) (s : SchedulerState)
      → x.world.scheduler_state ≡ some s
      → Inv s
      → d.items x.futex.waiting_tasks ≡ xs ++ ys
      → (length xs ≡ num) ⊎ ((ys ≡ []) × (length xs ≤ num))
      → Sleeping s xs
      → (x' : Shared) × (wake num x ≡ (ok tt, x')) × Wakes xs ys s x x'
  unfolding wake
  wake-Wakes zero [] ys x s here inv stands enough sl = (
    x,
    refl,
    record {
      s' = s;
      state = here;
      inv = inv;
      left = stands;
      value = refl;
      runs = refl;
      now = λ t. refl;
    },
  )
  wake-Wakes zero (t ∷ xs) ys x s here inv stands enough sl = absurd (ground arith)
  wake-Wakes (suc num) [] ys x s here inv stands enough sl = (
    rest x,
    ap (λ (o : Option ℕ). wake_then (wake num) o (rest x))
        (taken x stands ∙ ap head? (drained num ys enough)),
    record {
      s' = s;
      state = here;
      inv = inv;
      left =
          d.items-pop_front x.futex.waiting_tasks
          ∙ ap tail stands
          ∙ ap tail (drained num ys enough)
          ∙ sym (drained num ys enough);
      value = refl;
      runs = refl;
      now = λ t. refl;
    },
  )
  wake-Wakes (suc num) (t ∷ xs) ys x s here inv stands enough sl =
      let (i, there, blocked) = sl.blocked t (ground (arith, eqb_refl t)) in
      let (s₁, runs, un) =
        unblock_task-Unblocks x.world s here inv t i there (away t xs s sl) blocked in
      let (x', woken, wakes) =
        wake-Wakes num xs ys (record (rest x) { world = yield_now (save (x.world) s₁) }) s₁ refl
          un.inv (d.items-pop_front x.futex.waiting_tasks ∙ ap tail stands) (ground arith)
          (Sleeping-tail t xs s s₁ sl un) in
      (
        x',
        ap (λ (o : Option ℕ). wake_then (wake num) o (rest x)) (taken x stands)
            ∙ ap
                (λ (r : Outcome (Unit {0}) × World).
                  continue (λ _. wake num) (r.0, record (rest x) { world = r.1 }))
                runs
            ∙ woken,
        record {
          s' = wakes.s';
          state = wakes.state;
          inv = wakes.inv;
          left = wakes.left;
          value = wakes.value;
          runs = wakes.runs ∙ un.runs;
          now = λ a.
              ground (
                arith,
                wakes.now a,
                un.now a,
                un.was,
                sl.once a,
                ap (m.get s.tasks) {x = t} {y = a},
              );
        },
      )

  -- In a good state whose waiting tasks are blocked, once each, and do not run:
  -- `wake_all` leaves nobody waiting: the wait queue holds sixteen tasks at most.
  pub wake_all-Wakes :
      (x : Shared) (s : SchedulerState)
      → x.world.scheduler_state ≡ some s
      → Inv s
      → Sleeping s (d.items x.futex.waiting_tasks)
      → (x' : Shared) × (wake_all x ≡ (ok tt, x')) × Wakes (d.items x.futex.waiting_tasks) [] s x x'
  unfolding wake_all
  wake_all-Wakes x s here inv sl =
      wake-Wakes max_num_tasks (d.items x.futex.waiting_tasks) [] x s here inv
        (sym (append-nil (d.items x.futex.waiting_tasks)))
        (inr (refl, d.length-items x.futex.waiting_tasks)) sl
