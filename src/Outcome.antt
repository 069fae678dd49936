-- ===== src/Outcome.antt =====
-- taskette/src/lib.rs: the errors, and how a call ends: with a value, with an `Err`, or by a panic.
-- Code that changes state is a function of the state that gives back the outcome and the state
-- after it, so that what was written before an `Err` stays written.
pub mod Run
use taskette.Base.{
  ℕ, ◌+◌, ◌-◌, ◌^◌, ◌*◌, ◌%◌, ◌≡◌, refl, Bool, leb, ltb, if◌then◌else◌, ◌⊎◌, inl, inr,
}

pub data Error : Type 0 where
  task_full invalid_priority not_found not_initialized timer_full : Error

pub data Outcome {ℓ} (A : Type ℓ) : Type ℓ where
  ok : A → Outcome A
  err : Error → Outcome A
  panic : Outcome A

infixl 5 ◌>>=◌
abbrev pub ◌>>=◌ {ℓ κ} : {A : Type ℓ} {B : Type κ} → Outcome A → (A → Outcome B) → Outcome B
ok a >>= f = f a
err e >>= f = err e
panic >>= f = panic

-- `.unwrap_or_else(|_| unreachable!())`, `.expect(…)`: an `Err` is a panic.
abbrev pub expect {ℓ} : {A : Type ℓ} → Outcome A → Outcome A
expect (ok a) = ok a
expect (err e) = panic
expect panic = panic

-- Options of the build: the features `stack-canary` and `round-robin` of taskette/Cargo.toml, and
-- whether an overflow of arithmetic panics (a debug build) or wraps (a release build).
pub record Features : Type 0 where
  pub stack_canary : Bool
  pub round_robin : Bool
  pub overflow_checks : Bool

-- `a + b`, `a - b` and `a * b` on words of `w` bits.
abbrev pub add_word : Features → ℕ → ℕ → ℕ → Outcome ℕ
add_word f w a b =
    if ltb (a + b) (2 ^ w)
    then ok (a + b)
    else if f.overflow_checks
    then panic
    else ok ((a + b) % 2 ^ w)

abbrev pub sub_word : Features → ℕ → ℕ → ℕ → Outcome ℕ
sub_word f w a b =
    if leb b a then ok (a - b) else if f.overflow_checks then panic else ok (a + 2 ^ w - b)

abbrev pub mul_word : Features → ℕ → ℕ → ℕ → Outcome ℕ
mul_word f w a b =
    if ltb (a * b) (2 ^ w)
    then ok (a * b)
    else if f.overflow_checks
    then panic
    else ok (a * b % 2 ^ w)

pub Outcome-cases {ℓ} :
    {A : Type ℓ} (r : Outcome A)
    → ((a : A) × (r ≡ ok a)) ⊎ ((e : Error) × (r ≡ err e)) ⊎ (r ≡ panic)
Outcome-cases (ok a) = inl (a, refl)
Outcome-cases (err e) = inr (inl (e, refl))
Outcome-cases panic = inr (inr refl)
