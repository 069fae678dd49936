-- ===== src/Scheduler/Invariant/Choosing.antt =====
-- The second half of `select_task`: the first task of the highest priority gets the processor.
use taskette.Base.{
  ℕ, ◌+◌, ◌-◌, ◌≤◌, ◌<◌, ◌≡◌, refl, ap, false, some, List, [], ◌∷◌, arith, ◌==◌, if◌then◌else◌, bit,
  count, is_nil, head?, tail, eqb_refl, subst, sym,
}
use taskette.Base.Bits.{digit, leading_zeros, Highest, Highest-intro}
use taskette.Heapless.{DequeLib, IndexMapLib}
use taskette.Outcome.{ok, Features, sub_word}
use taskette.Kernel.{TaskInfo, SchedulerState, Queues, num_queues, idle_task_id}
use taskette.Scheduler.Queues.{clear_if_empty, dequeue_task}
use taskette.Scheduler.Queues.Effects.{line, Becomes, dequeue_task-front, clear_if_empty-IsMap}
use taskette.Scheduler.Switch.{take_next, choose_next}
use taskette.Scheduler.Invariant.{Placed, Inv}

cons-of_tail : (xs : List ℕ) → is_nil xs ≡ false → (x : ℕ) × (xs ≡ x ∷ tail xs)
cons-of_tail [] h = cc
cons-of_tail (x ∷ xs) h = (x, refl)

is_nil-count : (t : ℕ) (xs : List ℕ) → 0 < count t xs → is_nil xs ≡ false
is_nil-count t [] h = absurd (omega arith)
is_nil-count t (x ∷ xs) h = refl

module _ ⦃d : DequeLib⦄ ⦃m : IndexMapLib⦄ where
  -- `next` stood first in the queue of priority `top`, and runs now.
  pub record Chooses (s : SchedulerState) (sp : ℕ) (s' : SchedulerState) : Type 0 where
    pub inv : Inv s'
    pub info : TaskInfo
    pub there : m.get s.tasks s'.current_task ≡ some info
    pub ready : info.blocked ≡ false
    pub resumes : info.stack_pointer ≡ sp
    pub front : line s.queues info.priority ≡ s'.current_task ∷ line s'.queues info.priority
    pub others : (p : ℕ) → (info.priority == p) ≡ false → line s'.queues p ≡ line s.queues p
    pub highest :
        (t : ℕ) (i : TaskInfo)
        → m.get s.tasks t ≡ some i
        → i.blocked ≡ false
        → i.priority ≤ info.priority
    pub same_tasks : s'.tasks ≡ s.tasks
    pub same_last : s'.last_task_id ≡ s.last_task_id

  module _ (f : Features) (s : SchedulerState)
      (inv : Placed (λ _. false) s.tasks s.queues s.priority_map s.last_task_id) where
    -- The queue of a ready task is flagged.
    ready-flagged :
        (t : ℕ) (i : TaskInfo)
        → m.get s.tasks t ≡ some i
        → i.blocked ≡ false
        → (digit s.priority_map i.priority ≡ 1) × (i.priority < num_queues)
    ready-flagged t i there ready =
        let small = inv.ranged t i there in
        let full : is_nil (line s.queues i.priority) ≡ false =
          is_nil-count t (line s.queues i.priority) (omega (arith, inv.turns t i there ready)) in
        (ground (arith, inv.flags i.priority, small, full), small)

    some-flag : Highest 32 s.priority_map
    some-flag =
        let (i, there, same, ready) = inv.idle in
        let (flag, small) = ready-flagged idle_task_id i there ready in
        Highest-intro 32 s.priority_map i.priority (omega arith) flag

    top : ℕ
    top = 31 - leading_zeros 32 s.priority_map

    top-flagged : (top < num_queues) × (is_nil (line s.queues top) ≡ false)
    unfolding top
    top-flagged = ground (arith, inv.flags (31 - leading_zeros 32 s.priority_map), some-flag.set)

    module _ (next : ℕ) (i : TaskInfo) (queues' : Queues)
        (first : line s.queues top ≡ next ∷ tail (line s.queues top))
        (becomes : Becomes s.queues top (tail (line s.queues top)) queues')
        (there : m.get s.tasks next ≡ some i) (same : i.priority ≡ top) where
      chosen-count :
          (p a : ℕ)
          → count a (line s.queues p)
            ≡ count a (line queues' p) + (if top == p then bit (next == a) else 0)
      chosen-count p a = ground (
        arith,
        ap (count a) (becomes p),
        ap (count a) first,
        ap (λ (q : ℕ). count a (line s.queues q)) {x = top} {y = p},
      )

      chosen-turns :
          (t : ℕ) (j : TaskInfo)
          → m.get s.tasks t ≡ some j
          → j.blocked ≡ false
          → count t (line queues' j.priority) + bit (next == t) ≡ 1 + bit (t == idle_task_id)
      chosen-turns t j at free = ground (
        arith,
        chosen-count j.priority t,
        inv.turns t j at free,
        ap (m.get s.tasks) {x = next} {y = t},
        there,
        same,
      )

      chosen-Placed :
          Placed
            (λ t. next == t)
            s.tasks
            queues'
            (clear_if_empty queues' s.priority_map top)
            s.last_task_id
      chosen-Placed = record {
        flags =
            clear_if_empty-IsMap s.queues queues' s.priority_map top top-flagged.0 inv.flags
              (tail (line s.queues top)) (λ _. top-flagged.1) becomes;
        listed = λ p a h k. inv.listed p a h (omega (arith, chosen-count p a));
        ranged = inv.ranged;
        turns = chosen-turns;
        idle = inv.idle;
        known = inv.known;
      }

      chosen-front : line s.queues i.priority ≡ next ∷ line queues' i.priority
      chosen-front =
          subst (λ (p : ℕ). line s.queues p ≡ next ∷ line queues' p) (sym same)
            (rw (becomes top, eqb_refl top) first)

    subtracted : sub_word f 32 31 (leading_zeros 32 s.priority_map) ≡ ok top
    unfolding top
    subtracted = ground (arith, some-flag.in_range)

    below-top :
        (t : ℕ) (i : TaskInfo) → m.get s.tasks t ≡ some i → i.blocked ≡ false → i.priority ≤ top
    unfolding top
    below-top t i there ready =
        let (flag, small) = ready-flagged t i there ready in
        some-flag.above i.priority (omega arith) flag

    chosen-runs :
        (next : ℕ) (i : TaskInfo) (queues' : Queues) (map' : ℕ)
        → dequeue_task s.queues s.priority_map top ≡ ok (some next, queues', map')
        → m.get s.tasks next ≡ some i
        → choose_next f s
          ≡ ok (
            i.stack_pointer,
            record s { queues = queues'; priority_map = map'; current_task = next },
          )
    unfolding choose_next take_next
    chosen-runs next i queues' map' taken there = rw (subtracted, taken, there, take_next)

    pub choose_next-Chooses :
        (sp : ℕ) × (s' : SchedulerState) × (choose_next f s ≡ ok (sp, s')) × Chooses s sp s'
    choose_next-Chooses =
        let (next, first) = cons-of_tail (line s.queues top) top-flagged.1 in
        let listed : 0 < count next (line s.queues top) =
          ground (arith, ap (count next) first, eqb_refl next) in
        let (i, there, same, ready) = inv.listed top next top-flagged.0 listed in
        let (queues', taken, becomes) =
          dequeue_task-front s.queues s.priority_map idle_task_id top top-flagged.0 in
        (
          i.stack_pointer,
          record s {
            queues = queues';
            priority_map = clear_if_empty queues' s.priority_map top;
            current_task = next;
          },
          chosen-runs next i queues' _ (rw (← ap head? first) taken) there,
          record {
            inv = record {
              placed = chosen-Placed next i queues' first becomes there same;
              current = inv.known next i there;
            };
            info = i;
            there = there;
            ready = ready;
            resumes = refl;
            front = chosen-front next i queues' first becomes there same;
            others = λ p h. ground (arith, becomes p, h, same);
            highest = λ t j at free. rw same (below-top t j at free);
            same_tasks = refl;
            same_last = refl;
          },
        )
