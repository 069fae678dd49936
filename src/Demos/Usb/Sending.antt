-- ===== src/Demos/Usb/Sending.antt =====
-- What `write_all` sends.
use taskette.Base.{
  ℕ, zero, suc, ◌+◌, ◌≤◌, ◌<◌, ◌≡◌, refl, ap, sym, ◌∙◌, Option, some, List, [], ◌∷◌, ◌++◌, length,
  arith, lt→ltb, le→ltb, dec_lt,
}
use mathlib.Core.List.{append_assoc}
use taskette.Demos.Usb.{UsbLib, wrote, Sent, all_sent, write_from, write_all}

abbrev pub take : ℕ → List ℕ → List ℕ
take zero xs = []
take (suc n) [] = []
take (suc n) (x ∷ xs) = x ∷ take n xs

abbrev pub sum : List ℕ → ℕ
sum [] = 0
sum (n ∷ ns) = n + sum ns

-- Beginnings of the bytes, one after the other.
abbrev pub beginnings : List ℕ → List ℕ → List ℕ
beginnings bytes [] = []
beginnings bytes (n ∷ ns) = take n bytes ++ beginnings bytes ns

pub append_nil : (xs : List ℕ) → xs ++ [] ≡ xs
append_nil [] = refl
append_nil (x ∷ xs) = ap (λ (l : List ℕ). x ∷ l) (append_nil xs)

module _ ⦃u : UsbLib⦄ (bytes : List ℕ) (fuel idx : ℕ) (port : u.SerialPort) where
  pub write_from-end :
      length bytes ≤ idx → write_from (suc fuel) bytes idx port ≡ some (all_sent, port)
  unfolding write_from
  write_from-end past = rw (write_from, le→ltb idx (length bytes) past) refl

  pub write_from-step :
      (n : ℕ)
      → idx < length bytes
      → (u.write port bytes).0 ≡ wrote n
      → write_from (suc fuel) bytes idx port
        ≡ write_from fuel bytes (idx + n) (u.write port bytes).1
  unfolding write_from
  write_from-step n less e = rw (write_from, lt→ltb idx (length bytes) less, e) refl

-- `sent` is what a port has been given so far: a write that takes `n` bytes of the bytes adds the
-- first `n`.
module _ ⦃u : UsbLib⦄ (sent : u.SerialPort → List ℕ)
    (takes : (port : u.SerialPort) (bytes : List ℕ) (n : ℕ)
      → (u.write port bytes).0 ≡ wrote n
      → sent (u.write port bytes).1 ≡ sent port ++ take n bytes)
    (bytes : List ℕ)
    (ready : (port : u.SerialPort) → (n : ℕ) × ((u.write port bytes).0 ≡ wrote (suc n))) where
  abbrev pub SentFrom : ℕ → u.SerialPort → Option (Sent u.UsbError × u.SerialPort) → Type 0
  SentFrom idx port result =
      (end : u.SerialPort) × (ns : List ℕ) × (result ≡ some (all_sent, end))
      × (sent end ≡ sent port ++ beginnings bytes ns)
      × (length bytes ≤ idx + sum ns)

  write_from-begins :
      (fuel idx : ℕ) (port : u.SerialPort)
      → length bytes < fuel + idx
      → 0 < fuel
      → SentFrom idx port (write_from fuel bytes idx port)
  write_from-begins zero idx port enough some_fuel = absurd (omega (arith, some_fuel))
  write_from-begins (suc fuel) idx port enough some_fuel = elim (dec_lt idx (length bytes)) [
    | no done ↦ (
      port,
      [],
      write_from-end bytes fuel idx port (omega (arith, done)),
      sym (append_nil (sent port)),
      omega (arith, done),
    )
    | yes less ↦
        let (n, e) = ready port in
        let (end, ns, runs, has, long) =
          write_from-begins fuel (idx + suc n) (u.write port bytes).1 (omega (arith, enough))
            (omega (arith, enough, less)) in
        (
          end,
          suc n ∷ ns,
          write_from-step bytes fuel idx port (suc n) less e ∙ runs,
          has
              ∙ ap (λ (l : List ℕ). l ++ beginnings bytes ns) (takes port bytes (suc n) e)
              ∙ append_assoc (sent port) (take (suc n) bytes) (beginnings bytes ns),
          omega (arith, long),
        )
  ]

  -- When every call of `write` takes a byte or more of the data, and the first takes some, but not
  -- all: `write_all` ends with `Ok`, for as many rounds as there are bytes, and one more. What it
  -- has sent after the first bytes of the data are not those that follow them, but the first bytes
  -- again, and then further beginnings of it, until there are as many bytes as in the data, or more.
  pub write_all-again :
      (fuel n : ℕ) (port : u.SerialPort)
      → length bytes < fuel
      → (u.write port bytes).0 ≡ wrote (suc n)
      → suc n < length bytes
      → (end : u.SerialPort) × (k : ℕ) × (ns : List ℕ) × (write_all fuel port bytes
          ≡ some (all_sent, end))
        × (sent end
            ≡ (sent port ++ take (suc n) bytes) ++ (take (suc k) bytes ++ beginnings bytes ns))
        × (length bytes ≤ suc n + (suc k + sum ns))
  unfolding write_all
  write_all-again zero n port enough first partial = absurd (omega (arith, enough))
  write_all-again (suc zero) n port enough first partial = absurd (omega (arith, enough, partial))
  write_all-again (suc (suc fuel)) n port enough first partial =
      let port' : u.SerialPort = (u.write port bytes).1 in
      let (k, second) = ready port' in
      let (end, ns, runs, has, long) =
        write_from-begins fuel (0 + suc n + suc k) (u.write port' bytes).1 (omega (arith, enough))
          (omega (arith, enough, partial)) in
      (
        end,
        k,
        ns,
        write_from-step bytes (suc fuel) 0 port (suc n) (omega (arith, partial)) first
            ∙ write_from-step bytes fuel (0 + suc n) port' (suc k) (omega (arith, partial)) second
            ∙ runs,
        has
            ∙ ap (λ (l : List ℕ). l ++ beginnings bytes ns)
                (takes port' bytes (suc k) second
                  ∙ ap (λ (l : List ℕ). l ++ take (suc k) bytes) (takes port bytes (suc n) first))
            ∙ append_assoc (sent port ++ take (suc n) bytes) (take (suc k) bytes)
                (beginnings bytes ns),
        omega (arith, long),
      )
