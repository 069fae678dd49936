-- ===== src/Scheduler/Canary.antt =====
-- The stack canary: four words of a fixed pattern at the bottom of each stack.
pub mod Detection
use taskette.Base.{ℕ, ◌+◌, ◌*◌, zero, suc, Bool, true, false, ◌||◌, neb, List, [], ◌∷◌}
use taskette.Memory.{Memory, store_words, load_words}

abbrev pub stack_canary : ℕ
stack_canary = 0xABCD1234

abbrev pub stack_canary_len : ℕ
stack_canary_len = 4

repeat : ℕ → ℕ → List ℕ
repeat zero v = []
repeat (suc n) v = v ∷ repeat n v

-- `iter().any(|elem| *elem != STACK_CANARY)`
any_broken : List ℕ → Bool
any_broken [] = false
any_broken (v ∷ vs) = neb v stack_canary || any_broken vs

unfoldable pub fill_stack_canary : Memory → ℕ → Memory
unfolding repeat
fill_stack_canary m bottom = store_words m bottom (repeat stack_canary_len stack_canary)

-- `true` where `check_stack_canary` panics.
unfoldable pub check_stack_canary : Memory → ℕ → Bool
unfolding any_broken
check_stack_canary m bottom = any_broken (load_words stack_canary_len m bottom)
