-- ===== src/Futex.antt =====
-- taskette/src/futex.rs. The state of a call is the futex and the program's state.
pub mod Waking
pub mod Waits
use taskette.Base.{ℕ, zero, suc, Bool, true, false, Option, none, some, ◌==◌, if◌then◌else◌}
use taskette.Heapless.{DequeLib, IndexMapLib, BinaryHeapLib}
use taskette.Outcome.{Outcome, ok, err, panic}
use taskette.Outcome.Run.{M, ◌>>=◌, ◌>>◌}
use taskette.Kernel.{World, max_num_tasks}
use taskette.Scheduler.Tasks.{block_task, unblock_task, current_task_id}

module _ ⦃d : DequeLib⦄ where
  pub record Futex : Type 0 where
    pub value : ℕ
    pub waiting_tasks : d.Deque max_num_tasks

  unfoldable pub new : ℕ → Futex
  new value = record { value = value; waiting_tasks = d.new }

  -- `push_back`, where a full deque is a panic.
  unfoldable pub add_waiter : ℕ → Futex → Outcome (Unit {0}) × Futex
  add_waiter id x = elim (d.push_back x.waiting_tasks id) [
    | none ↦ (panic, x)
    | some q ↦ (ok tt, record x { waiting_tasks = q })
  ]

module _ ⦃d : DequeLib⦄ ⦃m : IndexMapLib⦄ ⦃h : BinaryHeapLib⦄ where
  pub record Shared : Type 0 where
    pub futex : Futex
    pub world : World

  abbrev pub on_world : {A : Type 0} → M World A → M Shared A
  on_world f x = let (r, w) = f x.world in (r, record x { world = w })

  abbrev pub on_futex : {A : Type 0} → M Futex A → M Shared A
  on_futex f x = let (r, y) = f x.futex in (r, record x { futex = y })

  -- The task goes to the wait queue and is blocked.
  unfoldable pub park : ℕ → M Shared (Unit {0})
  park id = on_futex (add_waiter id) >> on_world (block_task id)

  -- The critical section of `wait`: the value is read again.
  unfoldable pub wait_slow : ℕ → M Shared (Unit {0})
  wait_slow compare_val x =
      if x.futex.value == compare_val then (on_world current_task_id >>= park) x else (ok tt, x)

  -- Between the first test and the critical section other tasks and handlers may run: `between`.
  unfoldable pub wait : (Shared → Shared) → ℕ → M Shared (Unit {0})
  wait between compare_val x =
      if x.futex.value == compare_val then wait_slow compare_val (between x) else (ok tt, x)

  abbrev pub take_waiter : M Shared (Option ℕ)
  take_waiter x =
      let (id, q) = d.pop_front x.futex.waiting_tasks in
      (ok id, record x { futex = record (x.futex) { waiting_tasks = q } })

  -- `if let Some(task_id) = … { unblock_task(task_id)?; } else { break; }`, then the other rounds.
  abbrev pub wake_then : M Shared (Unit {0}) → Option ℕ → M Shared (Unit {0})
  wake_then rounds none x = (ok tt, x)
  wake_then rounds (some id) x = (on_world (unblock_task id) >> rounds) x

  unfoldable pub wake : ℕ → M Shared (Unit {0})
  wake zero = λ x. (ok tt, x)
  wake (suc num) = take_waiter >>= wake_then (wake num)

  unfoldable pub wake_one : M Shared (Unit {0})
  wake_one = wake 1

  unfoldable pub wake_all : M Shared (Unit {0})
  wake_all = wake max_num_tasks
