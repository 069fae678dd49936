-- ===== src/Outcome/Run.antt =====
-- The state monad of the program's functions.
use taskette.Outcome.{Error, Outcome, ok, err, panic}

abbrev pub M : Type 0 → Type 0 → Type 0
M S A = S → Outcome A × S

abbrev pub pure : {S A : Type 0} → A → M S A
pure a s = (ok a, s)

abbrev pub raise : {S A : Type 0} → Error → M S A
raise e s = (err e, s)

abbrev pub continue : {S A B : Type 0} → (A → M S B) → Outcome A × S → Outcome B × S
continue f (ok a, s) = f a s
continue f (err e, s) = (err e, s)
continue f (panic, s) = (panic, s)

infixl 5 ◌>>=◌ ◌>>◌
abbrev pub ◌>>=◌ : {S A B : Type 0} → M S A → (A → M S B) → M S B
◌>>=◌ m f s = continue f (m s)

abbrev pub ◌>>◌ : {S A B : Type 0} → M S A → M S B → M S B
m >> n = m >>= λ _. n

abbrev panicking : {S A : Type 0} → Outcome A × S → Outcome A × S
panicking (ok a, s) = (ok a, s)
panicking (err e, s) = (panic, s)
panicking (panic, s) = (panic, s)

-- `.expect(…)`
abbrev pub expect : {S A : Type 0} → M S A → M S A
expect m s = panicking (m s)

-- `let _ = …`: an `Err` is thrown away.
abbrev forgetting : {S A : Type 0} → Outcome A × S → Outcome (Unit {0}) × S
forgetting (ok a, s) = (ok tt, s)
forgetting (err e, s) = (ok tt, s)
forgetting (panic, s) = (panic, s)

abbrev pub ignore_err : {S A : Type 0} → M S A → M S (Unit {0})
ignore_err m s = forgetting (m s)
