-- ===== src/Futures.antt =====
-- taskette-utils/src/futures.rs: `block_on`, and the waker over a futex.
pub mod Completing
pub mod Wakeups
use taskette.Base.{ℕ, zero, suc, ◌+◌, Option, none, some}
use taskette.Heapless.{DequeLib, IndexMapLib, BinaryHeapLib}
use taskette.Outcome.{Outcome, ok, err, panic}
use taskette.Outcome.Run.{M, pure, ◌>>=◌, ◌>>◌, expect}
use taskette.Kernel.{World}
use taskette.Futex.{Futex, Shared, new, wait, wake_all}

-- What `Future::poll` gives; a pending future goes on in a new state.
pub data Poll (Fut Out : Type 0) : Type 0 where
  ready : Out → Poll Fut Out
  pending : Fut → Poll Fut Out

module _ ⦃d : DequeLib⦄ ⦃m : IndexMapLib⦄ ⦃h : BinaryHeapLib⦄ where
  -- `futex.as_ref().store(…, Ordering::SeqCst)`
  abbrev pub store : ℕ → M Shared (Unit {0})
  store v x = (ok tt, record x { futex = record (x.futex) { value = v } })

  -- A task's own steps are interrupted by others: `between k` is what they do between the first
  -- test of the `k`-th call of `wait` and its critical section, and `until k` what they do until
  -- the task runs again after it.
  pub record Others : Type 0 where
    pub between : ℕ → Shared → Shared
    pub until : ℕ → Shared → Shared

  abbrev pub interrupted : (Shared → Shared) → M Shared (Unit {0})
  interrupted others x = (ok tt, others x)

  -- `between`: what other tasks and handlers do after the store and before `wake_all`.
  unfoldable pub raw_waker_wake : (Shared → Shared) → M Shared (Unit {0})
  raw_waker_wake between = store 1 >> interrupted between >> expect wake_all

  unfoldable pub raw_waker_wake_by_ref : (Shared → Shared) → M Shared (Unit {0})
  raw_waker_wake_by_ref between = store 1 >> interrupted between >> expect wake_all

  module _ {Fut Out : Type 0} (poll : Fut → M Shared (Poll Fut Out)) (others : Others) where
    abbrev pub Rounds : Type 0
    Rounds = ℕ → Fut → M Shared (Option Out)

    -- A pending future: the task waits, and the futex is reset before the next poll.
    unfoldable pub wait_for : Rounds → ℕ → Poll Fut Out → M Shared (Option Out)
    wait_for rounds k (ready ret) = pure (some ret)
    wait_for rounds k (pending fut) =
        expect (wait (others.between k) 0)
        >> interrupted (others.until k)
        >> store 0
        >> rounds (suc k) fut

    -- The loop, with fuel; `none` where it runs out.
    unfoldable pub poll_loop : ℕ → Rounds
    poll_loop zero k fut = pure none
    poll_loop (suc fuel) k fut = poll fut >>= wait_for (poll_loop fuel) k

    unfoldable pub block_on : ℕ → Fut → M World (Option Out)
    unfolding poll_loop
    block_on fuel fut w =
        let (r, x) = poll_loop fuel 0 fut (record { futex = new 0; world = w }) in (r, x.world)
