-- ===== src/Scheduler/Scan.antt =====
-- The choice of the next task by looking at the queues themselves, from the highest priority down,
-- as `select_task` would choose without its bit map; and that the bit map changes nothing.
use taskette.Base.{
  ℕ, zero, suc, ◌-◌, ◌≤◌, ◌<◌, ◌≡◌, refl, ap, ◌⊎◌, inl, inr, true, false, Option, none, some, arith,
  is_nil, if◌then◌else◌, Bool-cases,
}
use taskette.Base.Bits.{
  digit, leading_zeros, leading_zeros-le, leading_zeros-highest, Highest, Highest-intro,
}
use taskette.Heapless.{DequeLib, IndexMapLib}
use taskette.Outcome.{Outcome, ok, panic, Features, sub_word, ◌>>=◌}
use taskette.Kernel.{SchedulerState, Queues, num_queues}
use taskette.Scheduler.Queues.{dequeue_task}
use taskette.Scheduler.Queues.Effects.{line, IsMap}
use taskette.Scheduler.Switch.{choose_next, take_next}

module _ ⦃d : DequeLib⦄ where
  -- The highest of the priorities below `k` whose queue is not empty.
  unfoldable pub scan : Queues → ℕ → Option ℕ
  scan queues zero = none
  scan queues (suc p) = let rest = scan queues p in if is_nil (line queues p) then rest else some p

  abbrev pub AllEmpty : Queues → ℕ → ℕ → Type 0
  AllEmpty queues low k = (n : ℕ) → low ≤ n → n < k → is_nil (line queues n) ≡ true

  empty-suc :
      (queues : Queues) (low k : ℕ)
      → is_nil (line queues k) ≡ true
      → AllEmpty queues low k
      → AllEmpty queues low (suc k)
  empty-suc queues low k nil empty n from to =
      ground (arith, empty n, ap (λ (q : ℕ). is_nil (line queues q)) {x = n} {y = k})

  pub scan-cases :
      (queues : Queues) (k : ℕ)
      → ((scan queues k ≡ none) × AllEmpty queues 0 k)
        ⊎ ((p : ℕ) × (scan queues k ≡ some p)
            × (p < k)
            × (is_nil (line queues p) ≡ false)
            × AllEmpty queues (suc p) k)
  unfolding scan
  scan-cases queues zero = inl (refl, λ n from to. absurd (omega arith))
  scan-cases queues (suc k) = elim (Bool-cases (is_nil (line queues k))) [
    | inr full ↦ inr (k, rw full refl, omega arith, full, λ n from to. absurd (omega arith))
    | inl nil ↦ elim (scan-cases queues k) [
      | inl (missed, empty) ↦ inl (rw nil missed, empty-suc queues 0 k nil empty)
      | inr (p, found, below, full, empty) ↦
          inr (p, rw nil found, omega arith, full, empty-suc queues (suc p) k nil empty)
    ]
  ]

  module _ (queues : Queues) (map : ℕ) (flags : IsMap queues map) where
    unset : AllEmpty queues 0 num_queues → leading_zeros 32 map ≡ 32
    unset empty =
        let digits : digit map (31 - leading_zeros 32 map) ≡ 0 =
          ground (arith, flags (31 - leading_zeros 32 map), empty (31 - leading_zeros 32 map)) in
        let one : leading_zeros 32 map < 32 → digit map (31 - leading_zeros 32 map) ≡ 1 =
          λ found. leading_zeros-highest 32 map found in
        ground (arith, leading_zeros-le 32 map, one, digits)

    highest :
        (p : ℕ)
        → p < num_queues
        → is_nil (line queues p) ≡ false
        → AllEmpty queues (suc p) num_queues
        → (leading_zeros 32 map ≤ 31) × (31 - leading_zeros 32 map ≡ p)
    highest p below full empty =
        let top : ℕ = 31 - leading_zeros 32 map in
        let one : digit map p ≡ 1 = ground (arith, flags p, full) in
        let found : Highest 32 map = Highest-intro 32 map p (omega arith) one in
        (
          omega (arith, found.in_range),
          ground (arith, found.above p, one, found.set, flags top, empty top),
        )

module _ ⦃d : DequeLib⦄ ⦃m : IndexMapLib⦄ where
  unfoldable pub choose_at : SchedulerState → Option ℕ → Outcome (ℕ × SchedulerState)
  choose_at s none = panic
  choose_at s (some p) = dequeue_task s.queues s.priority_map p >>= take_next s

  unfoldable pub choose_by_scan : SchedulerState → Outcome (ℕ × SchedulerState)
  unfolding choose_at scan
  choose_by_scan s = choose_at s (scan s.queues num_queues)

  -- In every state whose bit map tells which queues are not empty, with any features and overflow
  -- checks or none, the choice by `31 - priority_map.leading_zeros()` is the choice by a scan of the
  -- queues from the highest priority down: the same task, queues and map, and a panic where all
  -- queues are empty.
  pub choose_next-scan :
      (f : Features) (s : SchedulerState)
      → IsMap s.queues s.priority_map
      → choose_next f s ≡ choose_by_scan s
  unfolding choose_next choose_by_scan dequeue_task
  choose_next-scan f s flags = elim (scan-cases s.queues num_queues) [
    | inl (missed, empty) ↦ elim (Bool-cases f.overflow_checks) [
      | inl checked ↦ rw (missed, unset s.queues s.priority_map flags empty, checked) refl
      | inr wraps ↦ rw (missed, unset s.queues s.priority_map flags empty, wraps) refl
    ]
    | inr (p, found, below, full, empty) ↦
        let (small, top) = highest s.queues s.priority_map flags p below full empty in
        let subtracted : sub_word f 32 31 (leading_zeros 32 s.priority_map) ≡ ok p =
          ground (arith, small, top) in
        rw found (
          ap
            (λ (r : Outcome ℕ).
              r >>= (λ highest. dequeue_task s.queues s.priority_map highest >>= take_next s))
            subtracted)
  ]
