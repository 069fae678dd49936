-- ===== src/Cortex/Launch.antt =====
-- `_taskette_run_with_stack` of taskette-cortex-m/src/lib.rs, which starts the idle task.
use Prim.Native.Nat.{bit_or}
use taskette.Base.{ℕ, ◌≡◌, refl, arith, if◌then◌else◌, ◌==◌}
use taskette.Base.Bits.{digit, has_bit, digit-set}

-- The registers that the code names. Bit 1 of `control` is SPSEL, which selects the stack pointer
-- of thread mode.
pub record Thread : Type 0 where
  pub msp : ℕ
  pub psp : ℕ
  pub control : ℕ
  pub lr : ℕ
  pub pc : ℕ

-- The stack pointer in use in thread mode.
abbrev pub stack_pointer : Thread → ℕ
stack_pointer c = if has_bit c.control 1 then c.psp else c.msp

abbrev pub msr_psp : ℕ → Thread → Thread
msr_psp v c = record c { psp = v }

abbrev pub msr_control : ℕ → Thread → Thread
msr_control v c = record c { control = v }

abbrev pub blx : ℕ → ℕ → Thread → Thread
blx next v c = record c { lr = next; pc = v }

-- The instructions of the block, the last of them at the address before `next`; `isb` makes the
-- write to `control` take effect.
unfoldable pub run_with_stack : ℕ → ℕ → ℕ → Thread → Thread
run_with_stack next pc sp c =
    let written = msr_psp sp c in
    let tmp = bit_or written.control 0b10 in blx next pc (msr_control tmp written)

-- Whatever the stack in use was: the entry point is run on the given stack, the main stack pointer
-- is what it was, and so is each flag of `control` but SPSEL, which is set.
pub run_with_stack-enters :
    (next pc sp n : ℕ) (c : Thread)
    → (stack_pointer (run_with_stack next pc sp c) ≡ sp)
      × ((run_with_stack next pc sp c).pc ≡ pc)
      × ((run_with_stack next pc sp c).msp ≡ c.msp)
      × (digit (run_with_stack next pc sp c).control n ≡ (if n == 1 then 1 else digit c.control n))
unfolding run_with_stack
run_with_stack-enters next pc sp n c =
    (ground (arith, digit-set c.control 1 1), refl, refl, ground (arith, digit-set c.control 1 n))
