-- ===== src/Cortex/Multitasking/Spawning.antt =====
-- `spawn` with the first stack of Cortex-M: the new task has a context, and the others keep theirs.
use taskette.Base.{
  ℕ, suc, ◌+◌, ◌-◌, ◌%◌, ◌^◌, ◌≤◌, ◌<◌, ◌≡◌, refl, ap, sym, subst, ◌∙◌, ◌⊎◌, some, List, arith,
  if◌then◌else◌, update, length, Bool, true, false,
}
use taskette.Heapless.{DequeLib, IndexMapLib, BinaryHeapLib}
use taskette.Memory.{Memory, load_words}
use taskette.Memory.Words.{SameOutside}
use taskette.Machine.{Registers, padded}
use taskette.Machine.Frames.{padded_8, load_bytes}
use taskette.Outcome.{Outcome, ok, Features}
use taskette.Kernel.{
  TaskInfo, SchedulerState, World, save, yield_now, max_priority, max_num_tasks, usize_bits,
}
use taskette.Scheduler.Canary.Detection.{filled, filled-SameOutside}
use taskette.Scheduler.Tasks.{StackRange, spawn}
use taskette.Scheduler.Invariant.{Inv}
use taskette.Scheduler.Invariant.Spawning
use taskette.Scheduler.Calls.Spawn.{new_block, with_stack, spawn-Registers}
use taskette.Cortex.Stack.{arch, hardware_words, from_pc_and_r0}
use taskette.Cortex.Stack.Starting.{init_stack-starts, closure_at}
use taskette.Contexts.{Context}
use taskette.Contexts.Spawning.{Frames-spawned}
use taskette.Cortex.Multitasking.{Holds, Holds-frame, CpuFrames}
use taskette.Cortex.Multitasking.Variants.{v7m-Handler, first_context, v7m-Holds_first}

module _ ⦃d : DequeLib⦄ ⦃m : IndexMapLib⦄ ⦃h : BinaryHeapLib⦄ where
  -- The request for a switch leaves the memory and the scheduler's state alone.
  pub unpend_memory : (b : Bool) (v : World) → (if b then yield_now v else v).memory ≡ v.memory
  unpend_memory true v = refl
  unpend_memory false v = refl

  pub unpend_state :
      (b : Bool) (v : World) → (if b then yield_now v else v).scheduler_state ≡ v.scheduler_state
  unpend_state true v = refl
  unpend_state false v = refl

module _ ⦃d : DequeLib⦄ ⦃m : IndexMapLib⦄ ⦃h : BinaryHeapLib⦄ (scratch : Registers) (f : Features)
    (padding : ℕ) (w : World) (s : SchedulerState) (here : w.scheduler_state ≡ some s) (inv : Inv s)
    (pc : ℕ) (arg : List ℕ) (stack : StackRange) (priority : ℕ)
    (room : stack.start + 16 + padded 8 (length arg) + 72 ≤ stack.end) (small : stack.end < 2 ^ 32)
    (aligned : stack.end % 8 ≡ 0) (word : pc < 2 ^ 32) where
  abbrev pub block : TaskInfo
  block = new_block w s here inv f (arch padding) pc arg stack priority

  abbrev pub memory : Memory
  memory = (with_stack w s here inv f (arch padding) pc arg stack priority).memory

  -- Nothing outside the new stack is written, and the first frame is in it.
  abbrev Prepared : ℕ × Memory → Type 0
  Prepared (p, m') =
      SameOutside stack.start (stack.end - stack.start) w.memory m'
      × Holds (v7m-Handler scratch) m' p (first_context scratch p)
      × (stack.start ≤ p)
      × (p + 40 ≤ stack.end)
      × (load_words 8 m' (p + 40) ≡ hardware_words (from_pc_and_r0 pc (p + 72)))
      × (load_bytes (length arg) m' (p + 72) ≡ arg)

  stack-Prepared : Prepared (block.stack_pointer, memory)
  unfolding arch
  stack-Prepared =
      let ready_memory : Memory = filled f w.memory stack.start in
      let (covers, tight, whole) = padded_8 (length arg) in
      let (
        p, m', runs, placed, first_aligned, closure_aligned, outside, software, hardware, copied,
      ) =
        init_stack-starts padding ready_memory stack.end pc arg (omega arith) small aligned word in
      let at : p ≡ stack.end - padded 8 (length arg) - 72 = placed in
      let closure : closure_at stack.end arg ≡ p + 72 = omega (arith, at) in
      subst Prepared (sym runs) (
        (λ b away.
            outside b (omega (arith, away, at))
            ∙ filled-SameOutside f w.memory stack.start b (omega (arith, away))),
        v7m-Holds_first scratch m' p (omega (arith, at)) software,
        omega (arith, at),
        omega (arith, at),
        hardware ∙ ap (λ (c : ℕ). hardware_words (from_pc_and_r0 pc c)) closure,
        ap (load_bytes (length arg) m') (sym closure) ∙ copied,
      )

  -- A spawn writes to the new stack only.
  pub spawn-outside :
      priority ≤ max_priority
      → length (m.keys s.tasks) < max_num_tasks
      → suc s.last_task_id < 2 ^ usize_bits
      → (r : Outcome ℕ) (w' : World) → spawn f (arch padding) pc arg stack priority w ≡ (r, w')
      → SameOutside stack.start (stack.end - stack.start) w.memory w'.memory
  spawn-outside ready space unwrapped r w' e b away =
      let (s', runs, made) =
        spawn-Registers w s here inv f (arch padding) pc arg stack priority ready space unwrapped in
      ap (λ (p : Outcome ℕ × World). p.1.memory b) (sym e ∙ runs)
      ∙ ap (λ (k : Memory). k b)
          (unpend_memory s.started
            (save (with_stack w s here inv f (arch padding) pc arg stack priority) s'))
      ∙ (stack-Prepared.0) b away

  -- In a good state where each task that does not run has its context, with a priority in range,
  -- room in the table, an id that has not wrapped and addresses of 32 bits: `spawn` on a stack that
  -- lies apart from the others, is aligned at 8 bytes and has room for the canary, the closure and
  -- 72 bytes more succeeds. The new task has the context in which it returns to the frame of the
  -- hardware, that frame holds the entry point and a pointer to the closure, the closure is there,
  -- and the others keep theirs.
  pub spawn-Frames :
      (x : ℕ → Context) (low high : ℕ → ℕ)
      → CpuFrames (v7m-Handler scratch) s w.memory x low high
      → ((u : ℕ) (j : TaskInfo)
          → m.get s.tasks u ≡ some j
          → (stack.end ≤ low u) ⊎ (high u ≤ stack.start))
      → (stack.end ≤ low s.current_task) ⊎ (high s.current_task ≤ stack.start)
      → priority ≤ max_priority
      → length (m.keys s.tasks) < max_num_tasks
      → suc s.last_task_id < 2 ^ usize_bits
      → (s' : SchedulerState) × (v : World) × (spawn f (arch padding) pc arg stack priority w
          ≡ (ok (suc s.last_task_id), if s.started then yield_now v else v))
        × (v.scheduler_state ≡ some s')
        × Spawning.Registers (suc s.last_task_id) block s s'
        × CpuFrames
            (v7m-Handler scratch)
            s'
            v.memory
            (update x (suc s.last_task_id) (first_context scratch block.stack_pointer))
            (update low (suc s.last_task_id) stack.start)
            (update high (suc s.last_task_id) stack.end)
        × (load_words 8 v.memory (block.stack_pointer + 40)
            ≡ hardware_words (from_pc_and_r0 pc (block.stack_pointer + 72)))
        × (load_bytes (length arg) v.memory (block.stack_pointer + 72) ≡ arg)
  spawn-Frames x low high frames away current_away ready space unwrapped =
      let (s', runs, made) =
        spawn-Registers w s here inv f (arch padding) pc arg stack priority ready space unwrapped in
      (
        s',
        save (with_stack w s here inv f (arch padding) pc arg stack priority) s',
        runs,
        refl,
        made,
        Frames-spawned (Holds (v7m-Handler scratch)) (Holds-frame (v7m-Handler scratch)) s s' inv
            w.memory memory block (first_context scratch block.stack_pointer) stack.start stack.end
            (λ b outside. (stack-Prepared.0) b (omega (arith, outside))) stack-Prepared.1
            stack-Prepared.2 stack-Prepared.3 x low high frames away current_away made,
        stack-Prepared.4,
        stack-Prepared.5,
      )
