-- ===== src/Demos/Usb/Echo.antt =====
-- What the demo reads, it writes back.
use taskette.Base.{
  ℕ, zero, suc, ◌+◌, ◌≡◌, refl, ap, sym, ◌∙◌, Option, some, List, [], ◌∷◌, ◌++◌, length, arith, ◌⊎◌,
  inl, inr, Bool-cases,
}
use taskette.Demos.Usb.{
  UsbLib, wrote, all_sent, write_all, Reading, got, nothing, broken, usb_round, usb_rounds,
}
use taskette.Demos.Usb.Sending.{take, append_nil, write_from-end, write_from-step}

take-length : (xs : List ℕ) → take (length xs) xs ≡ xs
take-length [] = refl
take-length (x ∷ xs) = ap (λ (l : List ℕ). x ∷ l) (take-length xs)

Reading-cases :
    {E : Type 0} (r : Reading E)
    → ((bytes : List ℕ) × (r ≡ got bytes)) ⊎ (r ≡ nothing) ⊎ ((e : E) × (r ≡ broken e))
Reading-cases (got bytes) = inl (bytes, refl)
Reading-cases nothing = inr (inl refl)
Reading-cases (broken e) = inr (inr (e, refl))

module _ ⦃u : UsbLib⦄ where
  -- A port with a log of what it was given and of what was read from it, which takes all of the
  -- data at once.
  pub record Whole (sent received : u.SerialPort → List ℕ) : Type 0 where
    pub takes :
        (port : u.SerialPort) (bytes : List ℕ) → (u.write port bytes).0 ≡ wrote (length bytes)
    pub written :
        (port : u.SerialPort) (bytes : List ℕ) (n : ℕ)
        → (u.write port bytes).0 ≡ wrote n
        → (sent (u.write port bytes).1 ≡ sent port ++ take n bytes)
          × (received (u.write port bytes).1 ≡ received port)
    pub reads :
        (port : u.SerialPort) (bytes : List ℕ)
        → (u.read port).0 ≡ got bytes
        → (sent (u.read port).1 ≡ sent port) × (received (u.read port).1 ≡ received port ++ bytes)
    pub reads_nothing :
        (port : u.SerialPort)
        → (u.read port).0 ≡ nothing
        → (sent (u.read port).1 ≡ sent port) × (received (u.read port).1 ≡ received port)
    pub fails :
        (port : u.SerialPort) (e : u.UsbError)
        → (u.read port).0 ≡ broken e
        → (sent (u.read port).1 ≡ sent port) × (received (u.read port).1 ≡ received port)
    pub polls :
        (device : u.UsbDevice) (port : u.SerialPort)
        → (sent (u.poll device port).2 ≡ sent port)
          × (received (u.poll device port).2 ≡ received port)

  module _ (sent received : u.SerialPort → List ℕ) (whole : Whole sent received) (fuel : ℕ) where
    write_all_whole :
        (port : u.SerialPort) (bytes : List ℕ)
        → (end : u.SerialPort) × (write_all (suc (suc fuel)) port bytes ≡ some (all_sent, end))
          × (sent end ≡ sent port ++ bytes)
          × (received end ≡ received port)
    unfolding write_all
    write_all_whole port [] = (port, refl, sym (append_nil (sent port)), refl)
    write_all_whole port (x ∷ xs) =
        let taken = whole.takes port (x ∷ xs) in
        let (has, same) = whole.written port (x ∷ xs) (length (x ∷ xs)) taken in
        (
          (u.write port (x ∷ xs)).1,
          write_from-step (x ∷ xs) (suc fuel) 0 port (length (x ∷ xs)) (omega arith) taken
              ∙ write_from-end (x ∷ xs) fuel (0 + length (x ∷ xs)) (u.write port (x ∷ xs)).1
                  (omega arith),
          has ∙ ap (λ (l : List ℕ). sent port ++ l) (take-length (x ∷ xs)),
          same,
        )

    -- A round ends, and if all that was read before was sent, so it is after.
    abbrev Echoes : u.SerialPort → Option (u.UsbDevice × u.SerialPort) → Type 0
    Echoes port result =
        (device' : u.UsbDevice) × (port' : u.SerialPort) × (result ≡ some (device', port'))
        × (sent port ≡ received port → sent port' ≡ received port')

    usb_round-Echoes :
        (device : u.UsbDevice) (port : u.SerialPort)
        → Echoes port (usb_round (suc (suc fuel)) device port)
    unfolding usb_round
    usb_round-Echoes device port =
        let device' : u.UsbDevice = (u.poll device port).1 in
        let port' : u.SerialPort = (u.poll device port).2 in
        let port'' : u.SerialPort = (u.read port').1 in
        let (sent', received') = whole.polls device port in
        elim (Bool-cases (u.poll device port).0) [
          | inr idle ↦ rw (usb_round, idle) (device', port', refl, λ e. sent' ∙ e ∙ sym received')
          | inl ready ↦ elim (Reading-cases (u.read port').0) [
            | inl (bytes, e) ↦
                let (same, longer) = whole.reads port' bytes e in
                let (end, runs, has, kept) = write_all_whole port'' bytes in
                rw (usb_round, ready, e, runs)
                  (
                    device',
                    end,
                    refl,
                    λ before.
                        has
                        ∙ ap (λ (l : List ℕ). l ++ bytes) (same ∙ sent' ∙ before ∙ sym received')
                        ∙ sym (kept ∙ longer),
                  )
            | inr (inl e) ↦
                let (same, same') = whole.reads_nothing port' e in
                rw (usb_round, ready, e)
                  (device', port'', refl, λ before. same ∙ sent' ∙ before ∙ sym (same' ∙ received'))
            | inr (inr (error, e)) ↦
                let (same, same') = whole.fails port' error e in
                rw (usb_round, ready, e)
                  (device', port'', refl, λ before. same ∙ sent' ∙ before ∙ sym (same' ∙ received'))
          ]
        ]

    -- With a port that takes all of the data at once, any number of rounds ends, and what has been
    -- sent is what has been read, byte for byte, if it was so before.
    pub usb_rounds-echo :
        (rounds : ℕ) (device : u.UsbDevice) (port : u.SerialPort)
        → sent port ≡ received port
        → (device' : u.UsbDevice) × (port' : u.SerialPort) × (usb_rounds
              (suc (suc fuel))
              rounds
              device
              port
            ≡ some (device', port'))
          × (sent port' ≡ received port')
    unfolding usb_rounds
    usb_rounds-echo zero device port before = (device, port, refl, before)
    usb_rounds-echo (suc rounds) device port before =
        let (device', port', runs, echoes) = usb_round-Echoes device port in
        rw (usb_rounds, runs) (usb_rounds-echo rounds device' port' (echoes before))
