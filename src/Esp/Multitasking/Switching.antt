-- ===== src/Esp/Multitasking/Switching.antt =====
-- One run of the handler of the software interrupt: the running task's context is put away, and
-- that of the task which the kernel chooses is taken up.
use taskette.Base.{ℕ, ◌-◌, ◌^◌, ◌≤◌, ◌<◌, ◌≡◌, ap, sym, subst, ◌∙◌, ◌∷◌, update, some}
use taskette.Heapless.{DequeLib, IndexMapLib, BinaryHeapLib}
use taskette.Memory.{Memory}
use taskette.Memory.Words.{store_words-SameOutside}
use taskette.Machine.{Registers, values}
use taskette.Outcome.{ok, Features}
use taskette.Kernel.{SchedulerState, World, save}
use taskette.Scheduler.Switch.{select_task}
use taskette.Scheduler.Invariant.{Inv}
use taskette.Scheduler.Invariant.Storing.{CanaryOk}
use taskette.Scheduler.Invariant.Switching.{Switches}
use taskette.Contexts.{Context, Frames, answer, kernel}
use taskette.Contexts.Saving.{select_task-Frames}
use taskette.Esp.Switch.{
  Hart, sp, a0, run, execute, call, call_select_task, save_context, restore_context, switch_context,
  swint_handler,
}
use taskette.Esp.Switch.Continuing.{
  after, context, IsWord, run-append, save_context-frame, save_context-pointers,
}
use taskette.Esp.Multitasking.{
  context_of, Holds, Holds-frame, saved-Holds, restore_context-reads_only,
}

module _ (scratch : Registers) ⦃d : DequeLib⦄ ⦃m : IndexMapLib⦄ ⦃h : BinaryHeapLib⦄ (f : Features)
    (w : World) (s : SchedulerState) (here : w.scheduler_state ≡ some s) (inv : Inv s) (addr : ℕ)
    (c : Hart) (shared : c.memory ≡ w.memory) (word : IsWord c) (fits : 128 ≤ c.reg sp)
    (x : ℕ → Context) (low high : ℕ → ℕ) (frames : Frames (Holds scratch) s w.memory x low high)
    (above : low s.current_task ≤ c.reg sp - 128) (below : c.reg sp ≤ high s.current_task) where
  abbrev saved : Hart
  saved = after (kernel f w) scratch save_context (swint_handler addr c)

  abbrev done : Hart
  done = after (kernel f w) scratch switch_context (swint_handler addr c)

  -- The contexts after the switch.
  abbrev put_away : ℕ → Context
  put_away = update x s.current_task (context_of c)

  -- In a good state, where every task that does not run has its context in a frame on its own
  -- stack, the stacks lie apart, the running task has registers of 32 bits and room for its frame,
  -- and its canary is intact: after the software interrupt the processor has the registers, the
  -- position, the status and the stack pointer of the task that the kernel chose, as they were when
  -- it was interrupted, and again every task that does not run has its context, the one that ran
  -- too.
  pub swint-Switches :
      CanaryOk f saved.memory s
      → (sp' : ℕ) × (s' : SchedulerState) × (select_task f
            (c.reg sp - 128)
            (record w { memory = saved.memory })
          ≡ (ok sp', save (record w { memory = saved.memory }) s'))
        × Switches s (c.reg sp - 128) s' sp'
        × (context done ≡ (put_away s'.current_task).registers)
        × (done.reg sp ≡ (put_away s'.current_task).psp)
        × Frames (Holds scratch) s' done.memory put_away low high
  unfolding switch_context run execute Holds values
  swint-Switches intact =
      let small : c.reg sp < 2 ^ 32 = word.register sp in
      let (sp', s', runs, sw, holds, frames') =
        select_task-Frames (Holds scratch) (Holds-frame scratch) f w s here inv (context_of c) fits
          saved.memory
          (λ b outside.
            ap (λ (k : Memory). k b) (save_context-frame (kernel f w) scratch addr c fits small)
            ∙ store_words-SameOutside c.memory (c.reg sp - 128) (context c) b outside
            ∙ ap (λ (k : Memory). k b) shared)
          (saved-Holds scratch (kernel f w) addr c word fits) x low high frames above below
          intact in
      let called : Hart = call (kernel f w) scratch saved in
      let answered : kernel f w (saved.reg a0) saved.memory ≡ (sp', saved.memory) =
        ap (λ (q : ℕ). kernel f w q saved.memory)
          (save_context-pointers (kernel f w) scratch addr c fits small).0
        ∙ ap answer runs in
      let parts : done ≡ after (kernel f w) scratch restore_context called =
        run-append (kernel f w) scratch save_context (call_select_task ∷ restore_context)
          (swint_handler addr c) in
      let kept : called.memory ≡ saved.memory = ap (λ (r : ℕ × Memory). r.1) answered in
      let start : called.reg a0 ≡ sp' = ap (λ (r : ℕ × Memory). r.0) answered in
      let (registers, stack) =
        holds (kernel f w) called (λ b from to. ap (λ (k : Memory). k b) kept) start in
      (
        sp',
        s',
        runs,
        sw,
        ap context parts ∙ registers,
        ap (λ (k : Hart). k.reg sp) parts ∙ stack,
        subst (λ (k : Memory). Frames (Holds scratch) s' k put_away low high)
            (sym (
              ap (λ (k : Hart). k.memory) parts
              ∙ restore_context-reads_only scratch (kernel f w) called
              ∙ kept))
            frames',
      )
