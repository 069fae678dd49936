-- ===== src/Demos/Usb.antt =====
-- The serial port of the demos on the RP2040 and the RP235x, examples/rp2040/examples/demo.rs:
-- what is read is written back. The port and the USB device are those of `usbd_serial` and
-- `usb_device`.
pub mod Sending
pub mod Echo
use taskette.Base.{
  ℕ, zero, suc, ◌+◌, Bool, true, false, Option, none, some, List, length, ltb, if◌then◌else◌,
}

-- `Result<usize, UsbError>` of `write`: the number of bytes that are taken.
pub data Written (UsbError : Type 0) : Type 0 where
  wrote : ℕ → Written UsbError
  would_block : Written UsbError
  failed : UsbError → Written UsbError

-- What is read: the first `count` bytes of the buffer.
pub data Reading (UsbError : Type 0) : Type 0 where
  got : List ℕ → Reading UsbError
  nothing : Reading UsbError
  broken : UsbError → Reading UsbError

-- How `write_all` ends.
pub data Sent (UsbError : Type 0) : Type 0 where
  all_sent : Sent UsbError
  gave_up : UsbError → Sent UsbError

pub record UsbLib : Type 1 where
  pub UsbError : Type 0
  pub SerialPort : Type 0
  pub UsbDevice : Type 0
  pub write : SerialPort → List ℕ → Written UsbError × SerialPort
  pub read : SerialPort → Reading UsbError × SerialPort
  pub poll : UsbDevice → SerialPort → Bool × UsbDevice × SerialPort

module _ ⦃u : UsbLib⦄ where
  -- The loop of `write_all`: every call is given all of the data. `none` is a loop that is not at
  -- its end after as many rounds as there is fuel.
  unfoldable pub write_from :
      ℕ → List ℕ → ℕ → u.SerialPort → Option (Sent u.UsbError × u.SerialPort)
  write_from zero bytes idx port = none
  write_from (suc fuel) bytes idx port = elim (ltb idx (length bytes)) [
    | false ↦ some (all_sent, port)
    | true ↦
        let (r, port') = u.write port bytes in
        elim r [
          | wrote n ↦ write_from fuel bytes (idx + n) port'
          | would_block ↦ write_from fuel bytes idx port'
          | failed e ↦ some (gave_up e, port')
        ]
  ]

  unfoldable pub write_all : ℕ → u.SerialPort → List ℕ → Option (Sent u.UsbError × u.SerialPort)
  unfolding write_from
  write_all fuel port bytes = write_from fuel bytes 0 port

  -- An error of `write_all` is only logged.
  abbrev pub after_write :
      u.UsbDevice → Option (Sent u.UsbError × u.SerialPort) → Option (u.UsbDevice × u.SerialPort)
  after_write device none = none
  after_write device (some (result, port)) = some (device, port)

  -- One round of the loop of `usb_task_func`. The state of the device is only logged.
  unfoldable pub usb_round : ℕ → u.UsbDevice → u.SerialPort → Option (u.UsbDevice × u.SerialPort)
  usb_round fuel device port =
      let (ready, device', port') = u.poll device port in
      elim ready [
        | false ↦ some (device', port')
        | true ↦
            let (r, port'') = u.read port' in
            elim r [
              | got bytes ↦ after_write device' (write_all fuel port'' bytes)
              | nothing ↦ some (device', port'')
              | broken e ↦ some (device', port'')
            ]
      ]

  -- The loop, for a number of rounds.
  unfoldable pub usb_rounds :
      ℕ → ℕ → u.UsbDevice → u.SerialPort → Option (u.UsbDevice × u.SerialPort)
  unfolding usb_round
  usb_rounds fuel zero device port = some (device, port)
  usb_rounds fuel (suc rounds) device port = elim (usb_round fuel device port) [
    | none ↦ none
    | some (device', port') ↦ usb_rounds fuel rounds device' port'
  ]
