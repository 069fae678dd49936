-- ===== src/Machine.antt =====
-- What the crates of the chips share: registers as a function of their number, arithmetic on
-- addresses of 32 bits, and `push_to_stack` with the alignment left open.
pub mod Frames
use taskette.Base.{ℕ, ◌+◌, ◌-◌, ◌%◌, ◌^◌, List, [], ◌∷◌, update, length, ◌==◌, if◌then◌else◌}
use taskette.Memory.{Memory, store_bytes}

abbrev pub wrap_add : ℕ → ℕ → ℕ
wrap_add a b = (a + b) % 2 ^ 32

abbrev pub wrap_sub : ℕ → ℕ → ℕ
wrap_sub a b = (a + 2 ^ 32 - b) % 2 ^ 32

abbrev pub Registers : Type 0
Registers = ℕ → ℕ

-- The contents of registers, in the order of the list.
unfoldable pub values : Registers → List ℕ → List ℕ
values reg [] = []
values reg (r ∷ rs) = reg r ∷ values reg rs

-- Values into registers, the first into the first.
unfoldable pub assign : List ℕ → List ℕ → Registers → Registers
assign [] vs reg = reg
assign (r ∷ rs) [] reg = reg
assign (r ∷ rs) (v ∷ vs) reg = assign rs vs (update reg r v)

-- The size of an object, rounded up to the alignment. An object is never so large that the sum
-- overflows.
unfoldable pub padded : ℕ → ℕ → ℕ
padded align size = if size % align == 0 then size else size + align - size % align

unfoldable pub push_aligned : ℕ → Memory → ℕ → List ℕ → ℕ × Memory
unfolding padded
push_aligned align m sp obj =
    let sp = wrap_sub sp (padded align (length obj)) in (sp, store_bytes m sp obj)
