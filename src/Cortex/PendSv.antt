-- ===== src/Cortex/PendSv.antt =====
-- `PendSV` of taskette-cortex-m/src/lib.rs, in its three variants: the instructions, and what each
-- does. Registers 0 to 12 are R0 to R12, 13 is SP (MSP, as the handler runs on it), 14 is LR and
-- 15 PC.
pub mod Contexts
pub mod Variants
pub mod Fpu
pub mod Agreement
use Prim.Native.Nat.{bit_and}
use taskette.Base.{
  ℕ, ◌*◌, ◌==◌, Bool, true, false, ◌||◌, ◌&&◌, List, [], ◌∷◌, ◌++◌, if◌then◌else◌, length, update,
  leb,
}
use taskette.Memory.{Memory, store_words, load_words}
use taskette.Machine.{Registers, wrap_add, wrap_sub, values, assign}

pub record Cpu : Type 0 where
  pub reg : Registers
  pub fp : Registers
  pub psp : ℕ
  -- The flag Z, which `eq` asks for.
  pub zero_flag : Bool
  pub memory : Memory

pub data Instr : Type 0 where
  mrs_psp msr_psp bx : ℕ → Instr
  mov sub add tst : ℕ → ℕ → Instr
  push pop : List ℕ → Instr
  stmdb ldmia vstmdbeq vldmiaeq : ℕ → List ℕ → Instr
  bl_select_task : Instr

abbrev pub sp : ℕ
sp = 13

abbrev pub lr : ℕ
lr = 14

abbrev pub pc : ℕ
pc = 15

-- The registers that a called function keeps, R4 to R11 and SP.
abbrev pub kept : ℕ → Bool
kept r = (leb 4 r && leb r 11) || r == sp

abbrev set : ℕ → ℕ → Cpu → Cpu
set r v c = record c { reg = update c.reg r v }

-- Words below the address in register `rn`, which is moved down to them.
abbrev store_below : ℕ → List ℕ → Cpu → Cpu
store_below rn vs c =
    let a = wrap_sub (c.reg rn) (4 * length vs) in
    record c { memory = store_words c.memory a vs; reg = update c.reg rn a }

-- The address in register `rn` is moved up over `n` words.
abbrev skip : ℕ → ℕ → Cpu → Cpu
skip rn n c = set rn (wrap_add (c.reg rn) (4 * n)) c

abbrev load_up : ℕ → List ℕ → Cpu → Cpu
load_up rn rs c =
    skip rn (length rs)
      (record c { reg = assign rs (load_words (length rs) c.memory (c.reg rn)) c.reg })

abbrev load_fp_up : ℕ → List ℕ → Cpu → Cpu
load_fp_up rn rs c =
    skip rn (length rs)
      (record c { fp = assign rs (load_words (length rs) c.memory (c.reg rn)) c.fp })

-- `select_task` is given and returns a stack pointer, and may write memory; `scratch` is what it
-- leaves in the registers that a function need not keep.
module _ (select_task : ℕ → Memory → ℕ × Memory) (scratch : Registers) where
  abbrev pub call : Cpu → Cpu
  call c =
      let (next, memory) = select_task (c.reg 0) c.memory in
      record c { reg = update (λ r. if kept r then c.reg r else scratch r) 0 next; memory = memory }

  unfoldable pub execute : Instr → Cpu → Cpu
  unfolding values assign
  execute (mrs_psp d) c = set d c.psp c
  execute (msr_psp s) c = record c { psp = c.reg s }
  execute (bx s) c = set pc (c.reg s) c
  execute (mov d s) c = set d (c.reg s) c
  execute (sub d n) c = set d (wrap_sub (c.reg d) n) c
  execute (add d n) c = set d (wrap_add (c.reg d) n) c
  execute (tst r n) c = record c { zero_flag = bit_and (c.reg r) n == 0 }
  execute (push rs) c = store_below sp (values c.reg rs) c
  execute (pop rs) c = load_up sp rs c
  execute (stmdb n rs) c = store_below n (values c.reg rs) c
  execute (ldmia n rs) c = load_up n rs c
  execute (vstmdbeq n rs) c = if c.zero_flag then store_below n (values c.fp rs) c else c
  execute (vldmiaeq n rs) c = if c.zero_flag then load_fp_up n rs c else c
  execute bl_select_task c = call c

  unfoldable pub run : List Instr → Cpu → Cpu
  unfolding execute
  run [] c = c
  run (i ∷ is) c = run is (execute i c)

-- thumbv6m: the part before the call, and the part after it.
unfoldable pub v6m_save : List Instr
v6m_save =
    mrs_psp 0
    ∷ mov 1 sp
    ∷ mov sp 0
    ∷ sub sp 24
    ∷ push (4 ∷ 5 ∷ 6 ∷ 7 ∷ [])
    ∷ add sp 36
    ∷ mov 2 8
    ∷ mov 3 9
    ∷ mov 4 10
    ∷ mov 5 11
    ∷ push (2 ∷ 3 ∷ 4 ∷ 5 ∷ lr ∷ [])
    ∷ sub sp 16
    ∷ mov 0 sp
    ∷ mov sp 1
    ∷ []

unfoldable pub v6m_restore : List Instr
v6m_restore =
    mov 1 sp
    ∷ mov sp 0
    ∷ add sp 16
    ∷ pop (2 ∷ 3 ∷ 4 ∷ 5 ∷ 6 ∷ [])
    ∷ mov 8 2
    ∷ mov 9 3
    ∷ mov 10 4
    ∷ mov 11 5
    ∷ mov lr 6
    ∷ sub sp 36
    ∷ pop (4 ∷ 5 ∷ 6 ∷ 7 ∷ [])
    ∷ add sp 24
    ∷ mov 0 sp
    ∷ mov sp 1
    ∷ msr_psp 0
    ∷ bx lr
    ∷ []

abbrev pub saved_registers : List ℕ
saved_registers = 4 ∷ 5 ∷ 6 ∷ 7 ∷ 8 ∷ 9 ∷ 10 ∷ 11 ∷ lr ∷ []

-- thumbv7m and above, without an FPU.
unfoldable pub v7m_save : List Instr
v7m_save = mrs_psp 0 ∷ sub 0 4 ∷ stmdb 0 saved_registers ∷ []

unfoldable pub v7m_restore : List Instr
v7m_restore = ldmia 0 saved_registers ∷ add 0 4 ∷ msr_psp 0 ∷ bx lr ∷ []

-- S16 to S31.
abbrev pub saved_fp_registers : List ℕ
saved_fp_registers =
    16 ∷ 17 ∷ 18 ∷ 19 ∷ 20 ∷ 21 ∷ 22 ∷ 23 ∷ 24 ∷ 25 ∷ 26 ∷ 27 ∷ 28 ∷ 29 ∷ 30 ∷ 31 ∷ []

-- With an FPU.
unfoldable pub fpu_save : List Instr
fpu_save =
    mrs_psp 0 ∷ tst lr 16 ∷ vstmdbeq 0 saved_fp_registers ∷ sub 0 4 ∷ stmdb 0 saved_registers ∷ []

unfoldable pub fpu_restore : List Instr
fpu_restore =
    ldmia 0 saved_registers
    ∷ add 0 4
    ∷ tst lr 16
    ∷ vldmiaeq 0 saved_fp_registers
    ∷ msr_psp 0
    ∷ bx lr
    ∷ []

-- The handler.
unfoldable pub pend_sv : List Instr → List Instr → List Instr
pend_sv save restore = save ++ bl_select_task ∷ restore
