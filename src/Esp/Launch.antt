-- ===== src/Esp/Launch.antt =====
-- `_taskette_run_with_stack` of taskette-esp-riscv/src/lib.rs, which starts the idle task.
use taskette.Base.{ℕ, ◌≤◌, ◌<◌, ◌^◌, ◌≡◌, ◌≢◌, refl, ◌∙◌, ne→eqb}
use taskette.Memory.{Memory}
use taskette.Machine.{Registers}
use taskette.Esp.Switch.{Hart, sp, set, save_context, swint_handler}
use taskette.Esp.Switch.Continuing.{after, save_context-pointers}

abbrev pub ra : ℕ
ra = 1

-- The instructions of the block, the last of them at the address before `next`: `la` gets the
-- address of `MAIN_STACK_PTR` into the register `tmp`, which the compiler chooses, and `sw` stores
-- `sp` there. The entry point is what is run next.
unfoldable pub run_with_stack : ℕ → ℕ → ℕ → ℕ → ℕ → Hart → ℕ × Hart
run_with_stack tmp address next pc new_sp c =
    let loaded = set tmp address c in
    let stored = record loaded { main_stack_ptr = loaded.reg sp } in
    let moved = set sp new_sp stored in (pc, set ra next moved)

-- The entry point is run on the given stack, and the stack pointer that was in use is remembered:
-- whichever task a later context switch interrupts, as long as nothing else writes to
-- `MAIN_STACK_PTR` and the task's stack has room for a frame, it calls `select_task` on the stack
-- that `_taskette_run_with_stack` was called on.
pub run_with_stack-launches :
    (select_task : ℕ → Memory → ℕ × Memory) (scratch : Registers) (tmp address next pc new_sp : ℕ)
    (c : Hart)
    → tmp ≢ sp
    → (addr : ℕ) (k : Hart)
    → k.main_stack_ptr ≡ (run_with_stack tmp address next pc new_sp c).1.main_stack_ptr
    → 128 ≤ k.reg sp
    → k.reg sp < 2 ^ 32
    → ((run_with_stack tmp address next pc new_sp c).0 ≡ pc)
      × ((run_with_stack tmp address next pc new_sp c).1.reg sp ≡ new_sp)
      × ((run_with_stack tmp address next pc new_sp c).1.memory ≡ c.memory)
      × ((after select_task scratch save_context (swint_handler addr k)).reg sp ≡ c.reg sp)
unfolding run_with_stack
run_with_stack-launches select_task scratch tmp address next pc new_sp c other addr k same fits
      small =
    (
      refl,
      refl,
      refl,
      (save_context-pointers select_task scratch addr k fits small).1
          ∙ same
          ∙ rw (ne→eqb tmp sp other) refl,
    )
