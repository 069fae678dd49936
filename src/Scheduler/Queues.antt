-- ===== src/Scheduler/Queues.antt =====
-- `enqueue_task`, `dequeue_task` and `remove_task_from_queue`: the queues of the priorities, and
-- the bit map of those that hold a task. An index out of the array panics.
pub mod Effects
use Prim.Native.Nat.{bit_and, bit_or}
use taskette.Base.{ℕ, ◌^◌, Option, none, some, ltb, if◌then◌else◌, neb, update}
use taskette.Base.Bits.{bit_not}
use taskette.Heapless.{DequeLib}
use taskette.Outcome.{Outcome, ok, err, panic, task_full}
use taskette.Kernel.{Queues, num_queues}

module _ ⦃d : DequeLib⦄ where
  -- `*priority_map &= !(1 << priority)` where the queue is left empty.
  unfoldable pub clear_if_empty : Queues → ℕ → ℕ → ℕ
  clear_if_empty queues map p =
      if d.is_empty (queues p) then bit_and map (bit_not 32 (2 ^ p)) else map

  unfoldable pub enqueue_task : Queues → ℕ → ℕ → ℕ → Outcome (Queues × ℕ)
  enqueue_task queues map id p =
      if ltb p num_queues
      then elim (d.push_back (queues p) id) [
        | none ↦ err task_full
        | some q ↦ ok (update queues p q, bit_or map (2 ^ p))
      ]
      else panic

  unfoldable pub dequeue_task : Queues → ℕ → ℕ → Outcome (Option ℕ × Queues × ℕ)
  unfolding clear_if_empty
  dequeue_task queues map p =
      if ltb p num_queues
      then (let (id, q) = d.pop_front (queues p) in
          let queues' = update queues p q in ok (id, queues', clear_if_empty queues' map p))
      else panic

  unfoldable pub remove_task_from_queue : Queues → ℕ → ℕ → ℕ → Outcome (Queues × ℕ)
  unfolding clear_if_empty
  remove_task_from_queue queues map id p =
      if ltb p num_queues
      then (let queues' = update queues p (d.retain (λ elem. neb elem id) (queues p)) in
          ok (queues', clear_if_empty queues' map p))
      else panic
