-- ===== src/Esp/Multitasking/Spawning.antt =====
-- `spawn` with the first stack of this crate: the new task has a context, and the others keep theirs.
use taskette.Base.{
  ℕ, suc, ◌+◌, ◌-◌, ◌^◌, ◌≤◌, ◌<◌, ◌≡◌, refl, ap, sym, ◌∙◌, ◌⊎◌, inr, some, List, arith,
  if◌then◌else◌, update, length, subst,
}
use taskette.Heapless.{DequeLib, IndexMapLib, BinaryHeapLib}
use taskette.Memory.{Memory, load_words}
use taskette.Memory.Words.{SameOutside, store_words-SameOutside}
use taskette.Machine.{Registers, padded}
use taskette.Machine.Frames.{
  padded_16, frame-reads, load_bytes, load_bytes-agree, load_bytes-store_bytes,
  store_bytes-SameOutside,
}
use taskette.Outcome.{ok, Features}
use taskette.Kernel.{
  TaskInfo, SchedulerState, World, save, yield_now, max_priority, max_num_tasks, usize_bits,
}
use taskette.Scheduler.Canary.Detection.{filled, filled-SameOutside}
use taskette.Scheduler.Tasks.{StackRange, spawn}
use taskette.Scheduler.Invariant.{Inv}
use taskette.Scheduler.Invariant.Spawning
use taskette.Scheduler.Calls.Spawn.{new_block, with_stack, spawn-Registers}
use taskette.Contexts.{Context, Frames}
use taskette.Contexts.Spawning.{Frames-spawned}
use taskette.Esp.Stack.{arch, words, from_pc_and_a0}
use taskette.Esp.Stack.Starting.{
  closure_at, init_stack-layout, first_words, with_closure, with_registers,
}
use taskette.Esp.Switch.Continuing.{restore_context-reads}
use taskette.Esp.Multitasking.{Holds, Holds-frame}

-- The context that a new task starts with, in thread mode at its entry point, with a pointer to
-- its closure in a0 and the stack pointer just below the closure.
abbrev pub first_context : ℕ → ℕ → Context
first_context pc closure = record {
  registers = words (from_pc_and_a0 pc closure);
  psp = closure;
  size = 128;
}

module _ (scratch : Registers) (m : Memory) (top pc : ℕ) (arg : List ℕ)
    (room : padded 16 (length arg) + 128 ≤ top) (small : top < 2 ^ 32) (word : pc < 2 ^ 32) where
  first-Holds :
      Holds scratch
        (with_registers m top pc arg)
        (closure_at top arg - 128)
        (first_context pc (closure_at top arg))
  unfolding Holds
  first-Holds select_task c inside start =
      let (registers, stack) = restore_context-reads select_task scratch c (omega (arith, start)) in
      (
        registers
            ∙ ap (load_words 32 c.memory) start
            ∙ frame-reads (with_closure m top pc arg) c.memory (closure_at top arg - 128)
                (words (from_pc_and_a0 pc (closure_at top arg)))
                (first_words m top pc arg (closure_at top arg) (omega arith) word) inside,
        stack ∙ omega (arith, start),
      )

module _ ⦃d : DequeLib⦄ ⦃m : IndexMapLib⦄ ⦃h : BinaryHeapLib⦄ (scratch : Registers) (f : Features)
    (w : World) (s : SchedulerState) (here : w.scheduler_state ≡ some s) (inv : Inv s) (pc : ℕ)
    (arg : List ℕ) (stack : StackRange) (priority : ℕ)
    (room : stack.start + 16 + padded 16 (length arg) + 128 ≤ stack.end)
    (small : stack.end < 2 ^ 32) (word : pc < 2 ^ 32) where
  abbrev pub block : TaskInfo
  block = new_block w s here inv f arch pc arg stack priority

  abbrev pub memory : Memory
  memory = (with_stack w s here inv f arch pc arg stack priority).memory

  abbrev closure : ℕ
  closure = closure_at stack.end arg

  -- Nothing outside the new stack is written, and the first frame is in it.
  abbrev Prepared : ℕ × Memory → Type 0
  Prepared (p, m') =
      SameOutside stack.start (stack.end - stack.start) w.memory m'
      × Holds scratch m' p (first_context pc closure)
      × (stack.start ≤ p)
      × (p + 128 ≤ stack.end)
      × (load_bytes (length arg) m' closure ≡ arg)

  stack-Prepared : Prepared (block.stack_pointer, memory)
  stack-Prepared =
      let ready_memory : Memory = filled f w.memory stack.start in
      let (covers, tight, whole) = padded_16 (length arg) in
      let high : SameOutside (closure - 128) 128 (with_closure ready_memory stack.end pc arg)
          (with_registers ready_memory stack.end pc arg) =
        store_words-SameOutside (with_closure ready_memory stack.end pc arg) (closure - 128)
          (words (from_pc_and_a0 pc closure)) in
      let low : SameOutside closure (length arg) ready_memory
          (with_closure ready_memory stack.end pc arg) =
        store_bytes-SameOutside ready_memory closure arg in
      subst Prepared (sym (init_stack-layout ready_memory stack.end pc arg (omega arith) small)) (
        (λ b away.
            high b (omega (arith, away))
            ∙ low b (omega (arith, away))
            ∙ filled-SameOutside f w.memory stack.start b (omega (arith, away))),
        first-Holds scratch ready_memory stack.end pc arg (omega arith) small word,
        omega arith,
        omega arith,
        load_bytes-agree (length arg) (with_closure ready_memory stack.end pc arg)
              (with_registers ready_memory stack.end pc arg) closure
              (λ b from to. high b (inr (omega arith)))
            ∙ load_bytes-store_bytes ready_memory closure arg,
      )

  -- In a good state where each task that does not run has its context, with a priority in range,
  -- room in the table, an id that has not wrapped and addresses of 32 bits: `spawn` on a stack that
  -- lies apart from the others and has room for the canary, the closure and 128 bytes more
  -- succeeds. The new task has the context in which it is at its entry point with a pointer to the
  -- closure, which is there, and the others keep theirs.
  pub spawn-HartFrames :
      (x : ℕ → Context) (low high : ℕ → ℕ)
      → Frames (Holds scratch) s w.memory x low high
      → ((u : ℕ) (j : TaskInfo)
          → m.get s.tasks u ≡ some j
          → (stack.end ≤ low u) ⊎ (high u ≤ stack.start))
      → (stack.end ≤ low s.current_task) ⊎ (high s.current_task ≤ stack.start)
      → priority ≤ max_priority
      → length (m.keys s.tasks) < max_num_tasks
      → suc s.last_task_id < 2 ^ usize_bits
      → (s' : SchedulerState) × (v : World) × (spawn f arch pc arg stack priority w
          ≡ (ok (suc s.last_task_id), if s.started then yield_now v else v))
        × (v.scheduler_state ≡ some s')
        × Spawning.Registers (suc s.last_task_id) block s s'
        × Frames
            (Holds scratch)
            s'
            v.memory
            (update x (suc s.last_task_id) (first_context pc closure))
            (update low (suc s.last_task_id) stack.start)
            (update high (suc s.last_task_id) stack.end)
        × (load_bytes (length arg) v.memory closure ≡ arg)
  spawn-HartFrames x low high frames away current_away ready space unwrapped =
      let (s', runs, made) =
        spawn-Registers w s here inv f arch pc arg stack priority ready space unwrapped in
      (
        s',
        save (with_stack w s here inv f arch pc arg stack priority) s',
        runs,
        refl,
        made,
        Frames-spawned (Holds scratch) (Holds-frame scratch) s s' inv w.memory memory block
            (first_context pc closure) stack.start stack.end
            (λ b outside. (stack-Prepared.0) b (omega (arith, outside))) stack-Prepared.1
            stack-Prepared.2 stack-Prepared.3 x low high frames away current_away made,
        stack-Prepared.4,
      )
