-- ===== src/Esp/Switch.antt =====
-- The context switch of taskette-esp-riscv/src/lib.rs: `swint_handler`, which remembers the
-- interrupted position and chains to `switch_context`, and the instructions of the latter.
-- Registers are numbered as in the architecture, so that 2 is `sp`.
pub mod Continuing
use taskette.Base.{
  ℕ, ◌+◌, ◌-◌, ◌*◌, ◌/◌, ◌%◌, ◌==◌, Bool, true, false, ◌||◌, ◌&&◌, List, [], ◌∷◌, ◌++◌,
  if◌then◌else◌, update, leb,
}
use taskette.Memory.{Memory, store_u32, load_u32}
use taskette.Machine.{Registers, wrap_add}

abbrev pub sp : ℕ
sp = 2

abbrev pub t0 : ℕ
t0 = 5

abbrev pub a0 : ℕ
a0 = 10

-- `mstatus_save` and `main_stack_ptr` are the crate's statics.
pub record Hart : Type 0 where
  pub reg : Registers
  pub mepc : ℕ
  pub mscratch : ℕ
  pub mstatus : ℕ
  pub mstatus_save : ℕ
  pub main_stack_ptr : ℕ
  pub memory : Memory

-- `sw` and `lw` name the register, then the offset from `sp`.
pub data Instr : Type 0 where
  addi_sp : ℕ → Instr
  sw lw mv : ℕ → ℕ → Instr
  csrr_mscratch lw_mstatus_save lw_main_stack_ptr csrw_mepc csrw_mstatus : ℕ → Instr
  call_select_task : Instr

-- The registers that a called function keeps: `sp`, `gp`, `tp` and `s0` to `s11`.
abbrev pub kept : ℕ → Bool
kept r = (leb 2 r && leb r 4) || (leb 8 r && leb r 9) || (leb 18 r && leb r 27)

abbrev pub set : ℕ → ℕ → Hart → Hart
set r v c = record c { reg = update c.reg r v }

-- `set_mpie(false)`: bit 7 is cleared.
abbrev clear_mpie : ℕ → ℕ
clear_mpie mstatus = mstatus - mstatus / 128 % 2 * 128

-- `switch_context` is the address of the code below.
unfoldable pub swint_handler : ℕ → Hart → Hart
swint_handler switch_context c = record c {
  mstatus_save = c.mstatus;
  mstatus = clear_mpie c.mstatus;
  mscratch = c.mepc;
  mepc = switch_context;
}

module _ (select_task : ℕ → Memory → ℕ × Memory) (scratch : Registers) where
  abbrev pub call : Hart → Hart
  call c =
      let (next, memory) = select_task (c.reg a0) c.memory in
      record c {
        reg = update (λ r. if kept r then c.reg r else scratch r) a0 next;
        memory = memory;
      }

  unfoldable pub execute : Instr → Hart → Hart
  execute (addi_sp n) c = set sp (wrap_add (c.reg sp) n) c
  execute (sw r n) c = record c { memory = store_u32 c.memory (wrap_add (c.reg sp) n) (c.reg r) }
  execute (lw r n) c = set r (load_u32 c.memory (wrap_add (c.reg sp) n)) c
  execute (mv d s) c = set d (c.reg s) c
  execute (csrr_mscratch d) c = set d c.mscratch c
  execute (lw_mstatus_save d) c = set d c.mstatus_save c
  execute (lw_main_stack_ptr d) c = set d c.main_stack_ptr c
  execute (csrw_mepc s) c = record c { mepc = c.reg s }
  execute (csrw_mstatus s) c = record c { mstatus = c.reg s }
  execute call_select_task c = call c

  unfoldable pub run : List Instr → Hart → Hart
  unfolding execute
  run [] c = c
  run (i ∷ is) c = run is (execute i c)

-- The registers in the order of the frame: ra, gp, tp, t0 to t2, s0, s1, a0 to a7, s2 to s11, t3
-- to t6.
abbrev pub saved_registers : List ℕ
saved_registers =
    1 ∷ 3 ∷ 4 ∷ 5 ∷ 6 ∷ 7 ∷ 8 ∷ 9 ∷ 10 ∷ 11 ∷ 12 ∷ 13 ∷ 14 ∷ 15 ∷ 16 ∷ 17 ∷ 18 ∷ 19 ∷ 20 ∷ 21 ∷ 22
    ∷ 23 ∷ 24 ∷ 25 ∷ 26 ∷ 27 ∷ 28 ∷ 29 ∷ 30 ∷ 31 ∷ []

-- One `sw`, or one `lw`, for each register, at the offsets `n`, `n + 4` and so on.
unfoldable pub store_all : ℕ → List ℕ → List Instr
store_all n [] = []
store_all n (r ∷ rs) = sw r n ∷ store_all (n + 4) rs

unfoldable pub load_all : ℕ → List ℕ → List Instr
load_all n [] = []
load_all n (r ∷ rs) = lw r n ∷ load_all (n + 4) rs

-- The part before the call.
unfoldable pub save_context : List Instr
unfolding store_all
save_context =
    addi_sp 0xFFFFFF80 ∷ store_all 0 saved_registers
    ++ csrr_mscratch t0
      ∷ sw t0 120
      ∷ lw_mstatus_save t0
      ∷ sw t0 124
      ∷ mv a0 sp
      ∷ lw_main_stack_ptr sp
      ∷ []

-- The part after it, up to `mret`.
unfoldable pub restore_context : List Instr
unfolding load_all
restore_context =
    mv sp a0 ∷ lw t0 120 ∷ csrw_mepc t0 ∷ lw t0 124 ∷ csrw_mstatus t0 ∷ load_all 0 saved_registers
    ++ addi_sp 128 ∷ []

unfoldable pub switch_context : List Instr
switch_context = save_context ++ call_select_task ∷ restore_context
