-- ===== src/Cortex/Multitasking/Switching.antt =====
-- One run of the handler: the running task's context is put away, and that of the task which the
-- kernel chooses is taken up.
use taskette.Base.{ℕ, ◌-◌, ◌≤◌, ◌≡◌, ap, sym, subst, ◌∙◌, some, List, ◌∷◌, update}
use taskette.Heapless.{DequeLib, IndexMapLib, BinaryHeapLib}
use taskette.Memory.{Memory}
use taskette.Machine.{Registers}
use taskette.Outcome.{ok, Features}
use taskette.Kernel.{SchedulerState, World, save}
use taskette.Scheduler.Switch.{select_task}
use taskette.Scheduler.Invariant.{Inv}
use taskette.Scheduler.Invariant.Storing.{CanaryOk}
use taskette.Scheduler.Invariant.Switching.{Switches}
use taskette.Cortex.PendSv.{Cpu, Instr, run, execute, pend_sv, bl_select_task, sp, call}
use taskette.Cortex.PendSv.Contexts.{after, run-append}
use taskette.Contexts.{Context, answer, kernel}
use taskette.Contexts.Saving.{select_task-Frames}
use taskette.Cortex.Multitasking.{
  Handler, Holds, Holds-frame, context_of, IsRunnable, saved-Holds, CpuFrames,
}

module _ {scratch : Registers} {save_part restore_part : List Instr} {size : Cpu → ℕ}
    {context : Cpu → List ℕ} (v : Handler scratch save_part restore_part size context)
    ⦃d : DequeLib⦄ ⦃m : IndexMapLib⦄ ⦃h : BinaryHeapLib⦄ (f : Features) (w : World)
    (s : SchedulerState) (here : w.scheduler_state ≡ some s) (inv : Inv s) (c : Cpu)
    (shared : c.memory ≡ w.memory) (good : IsRunnable v c) (x : ℕ → Context) (low high : ℕ → ℕ)
    (frames : CpuFrames v s w.memory x low high) (above : low s.current_task ≤ c.psp - size c)
    (below : c.psp ≤ high s.current_task) where
  abbrev saved : Cpu
  saved = after (kernel f w) scratch save_part c

  -- The contexts after the switch.
  abbrev put_away : ℕ → Context
  put_away = update x s.current_task (context_of v c)

  abbrev done : Cpu
  done = after (kernel f w) scratch (pend_sv save_part restore_part) c

  abbrev called : Cpu
  called = call (kernel f w) scratch saved

  module _ (sp' : ℕ) (s' : SchedulerState)
      (runs : select_task f (c.psp - size c) (record w { memory = saved.memory })
        ≡ (ok sp', save (record w { memory = saved.memory }) s')) where
    answered : kernel f w (saved.reg 0) saved.memory ≡ (sp', saved.memory)
    answered =
        ap (λ (q : ℕ). kernel f w q saved.memory)
          ((v.switches (kernel f w)).pointer c good.room good.small)
        ∙ ap (answer) runs

    parts : done ≡ after (kernel f w) scratch restore_part called
    unfolding pend_sv run execute
    parts = run-append (kernel f w) scratch save_part (bl_select_task ∷ restore_part) c

    -- The handler writes nothing after the frame.
    pub pend_sv-memory : done.memory ≡ saved.memory
    pend_sv-memory =
        ap (λ (k : Cpu). k.memory) parts
        ∙ (v.switches (kernel f w)).reads_only called
        ∙ ap (λ (r : ℕ × Memory). r.1) answered

  -- In a good state, where every task that does not run has its context in a frame on its own
  -- stack, the stacks lie apart, the running task has registers of 32 bits and room for its frame,
  -- and its canary is intact: after one run of `PendSV` the processor has the registers and the
  -- stack pointer of the task that the kernel chose, as they were when it was interrupted, the main
  -- stack pointer is what it was, and again every task that does not run has its context, the one
  -- that ran too.
  pub pend_sv-Switches :
      CanaryOk f saved.memory s
      → (sp' : ℕ) × (s' : SchedulerState) × (select_task f
            (c.psp - size c)
            (record w { memory = saved.memory })
          ≡ (ok sp', save (record w { memory = saved.memory }) s'))
        × Switches s (c.psp - size c) s' sp'
        × (context done ≡ (put_away s'.current_task).registers)
        × (done.psp ≡ (put_away s'.current_task).psp)
        × (done.reg sp ≡ c.reg sp)
        × CpuFrames v s' done.memory put_away low high
  unfolding pend_sv run execute Holds
  pend_sv-Switches intact =
      let (sp', s', runs, sw, holds, frames') =
        select_task-Frames (Holds v) (Holds-frame v) f w s here inv (context_of v c) good.room
          saved.memory
          (λ b outside.
            (v.switches (kernel f w)).within c good.room good.small b outside
            ∙ ap (λ (k : Memory). k b) shared)
          (saved-Holds v (kernel f w) c good) x low high frames above below intact in
      let kept : called.memory ≡ saved.memory =
        ap (λ (r : ℕ × Memory). r.1) (answered sp' s' runs) in
      let start : called.reg 0 ≡ sp' = ap (λ (r : ℕ × Memory). r.0) (answered sp' s' runs) in
      let (registers, stack) =
        holds (kernel f w) called (λ b from to. ap (λ (k : Memory). k b) kept) start in
      (
        sp',
        s',
        runs,
        sw,
        ap context (parts sp' s' runs) ∙ registers,
        ap (λ (k : Cpu). k.psp) (parts sp' s' runs) ∙ stack,
        ap (λ (k : Cpu). k.reg sp) (parts sp' s' runs)
            ∙ ((v.switches (kernel f w)).on_main_stack called).1
            ∙ ((v.switches (kernel f w)).on_main_stack c).0,
        subst (λ (k : Memory). CpuFrames v s' k put_away low high)
            (sym (pend_sv-memory sp' s' runs)) frames',
      )
