-- ===== src/Timer/Lateness.antt =====
-- A tick rings one registration at most, so that registrations due at one time ring one tick after
-- the other, the earliest first.
use taskette.Base.{
  ℕ, zero, suc, ◌+◌, ◌-◌, ◌≤◌, ◌<◌, ◌≡◌, refl, none, List, [], ◌∷◌, arith, leb, ltb, tally,
  tally-le-length, Option-cases, Bool-cases, inl, inr,
}
use taskette.Heapless.{BinaryHeapLib}
use taskette.Kernel.{TimerRegistry, Timer, max_timer_regs}
use taskette.Timer.Ops.{ring_at}

module _ ⦃h : BinaryHeapLib⦄ where
  -- The registrations that are to ring at `time` or before.
  abbrev pub due : ℕ → Timer → ℕ
  due time timer = tally (λ r. leb r.time time) (h.items timer.queue)

  -- If one is due by `time`, the earliest is.
  due-earliest :
      (x time : ℕ) (rs : List TimerRegistry)
      → time < x
      → tally (λ r. ltb r.time x) rs ≡ 0
      → tally (λ r. leb r.time time) rs ≡ 0
  due-earliest x time [] late none_before = omega arith
  due-earliest x time (r ∷ rs) late none_before = ground (arith, due-earliest x time rs late)

  -- What one tick does to the registrations that are due by `limit`.
  pub due-ring_at :
      (timer : Timer) (time limit : ℕ)
      → limit ≤ time
      → (due limit (ring_at timer time).1 ≡ due limit timer - 1)
        × ((ring_at timer time).1.time ≡ time)
  unfolding ring_at
  due-ring_at timer time limit before = elim (Option-cases (h.peek timer.queue)) [
    | inl empty ↦ rw (empty, ring_at) (rw (h.peek-none timer.queue empty) (omega arith), refl)
    | inr (top, first) ↦
        let none_before = h.peek-least timer.queue top first (λ r. r.time) (λ a b. refl) in
        let split = h.pop_lem timer.queue top first (λ r. leb r.time limit) in
        let none_due = due-earliest top.time limit (h.items timer.queue) in
        elim (Bool-cases (leb top.time time)) [
          | inl rings ↦
              rw (first, ring_at, rings) (ground (arith, split, none_due, none_before), refl)
          | inr waits ↦ rw (first, ring_at, waits) (ground (arith, none_due, none_before), refl)
        ]
  ]

  -- With nothing due, nothing rings.
  pub ring_at_quiet :
      (timer : Timer) (time : ℕ)
      → due time timer ≡ 0
      → ring_at timer time ≡ (none, record timer { time = time })
  unfolding ring_at
  ring_at_quiet timer time quiet = elim (Option-cases (h.peek timer.queue)) [
    | inl empty ↦ rw (empty, ring_at)
    | inr (top, first) ↦ elim (Bool-cases (leb top.time time)) [
      | inl rings ↦
          absurd
            (ground (arith, quiet, rings, h.pop_lem timer.queue top first (λ r. leb r.time time)))
      | inr waits ↦ rw (first, ring_at, waits)
    ]
  ]

  -- The timer after `n` ticks.
  unfoldable pub after_ticks : ℕ → Timer → Timer
  after_ticks zero timer = timer
  after_ticks (suc n) timer = after_ticks n (ring_at timer (timer.time + 1)).1

  pub due-after_ticks :
      (n : ℕ) (timer : Timer) (limit : ℕ)
      → limit ≤ timer.time + 1
      → due limit (after_ticks n timer) ≡ due limit timer - n
  unfolding after_ticks
  due-after_ticks zero timer limit near = omega arith
  due-after_ticks (suc n) timer limit near =
      let (one_less, now) = due-ring_at timer (timer.time + 1) limit near in
      omega (
        arith,
        one_less,
        due-after_ticks n (ring_at timer (timer.time + 1)).1 limit (omega (arith, now, near)),
      )

  -- Once the next tick reaches `limit`, 32 ticks ring all that is due by it:
  -- no registration waits for more than 32 ticks beyond its time.
  pub due-after_ticks_all :
      (timer : Timer) (limit : ℕ)
      → limit ≤ timer.time + 1
      → due limit (after_ticks max_timer_regs timer) ≡ 0
  due-after_ticks_all timer limit near = omega (
    arith,
    due-after_ticks max_timer_regs timer limit near,
    tally-le-length (λ (r : TimerRegistry). leb r.time limit) (h.items timer.queue),
    h.length-items timer.queue,
  )
