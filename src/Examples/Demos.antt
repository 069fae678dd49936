-- ===== src/Examples/Demos.antt =====
-- The theorems on the demos and the delays, run at concrete states and ports.
use taskette.Base.{
  ℕ, suc, ◌+◌, ◌*◌, ◌%◌, ◌^◌, ◌≢◌, ◌≤◌, ◌<◌, ◌≡◌, refl, ap, true, false, some, List, [], ◌∷◌, ◌++◌,
  arith, length, inr,
}
use taskette.Heapless.Lists.{list_deque, list_map, list_heap}
use taskette.Machine.{padded}
use taskette.Task.{default}
use taskette.Scheduler.Tasks.{StackRange}
use taskette.Cortex.PendSv.{Cpu}
use taskette.Delay.{delay_ms}
use taskette.Delay.Waiting.{WaitsUntil, delay_ms-Waits}
use taskette.Demos.{Job, job}
use taskette.Outcome.{ok}
use taskette.Kernel.{SchedulerState}
use taskette.Scheduler.RoundRobin.{Pair}
use taskette.Demos.Benchmark.Yielding.{yields, yields-Pair}
use taskette.Demos.Booting.{IsReady, Enters}
use taskette.Demos.Qemu.{main, main-Enters}
use taskette.Demos.Usb.{
  UsbLib, Written, wrote, would_block, failed, Reading, got, nothing, broken, all_sent, write_all,
  usb_rounds,
}
use taskette.Demos.Usb.Sending.{take, sum, beginnings, write_all-again}
use taskette.Demos.Usb.Echo.{Whole, usb_rounds-echo}
use taskette.Examples.{
  blank, running, running-Inv, running_current, running_runs, worker, world, idle_clock,
  idle_clock_time, plain,
}
use taskette.Examples.Boot.{untouched}
use taskette.Examples.Multitasking.{zeros, no_context}

-- A port with what it was given, what was read, and what is to be read.
record Port : Type 0 where
  sent : List ℕ
  received : List ℕ
  incoming : List ℕ

abbrev put : ℕ → Port → List ℕ → Written ℕ × Port
put n port bytes = (wrote n, record port { sent = port.sent ++ take n bytes })

abbrev fetch : Port → List ℕ → Reading ℕ × Port
fetch port [] = (nothing, port)
fetch port (x ∷ xs) =
    (got (x ∷ xs), record port { received = port.received ++ x ∷ xs; incoming = [] })

-- Ports that take so many bytes of the data.
abbrev ports : (List ℕ → ℕ) → UsbLib
ports taken = record {
  UsbError = ℕ;
  SerialPort = Port;
  UsbDevice = Unit {0};
  write = λ port bytes. put (taken bytes) port bytes;
  read = λ port. fetch port port.incoming;
  poll = λ device port. (true, device, port);
}

amount : Written ℕ → ℕ
amount (wrote n) = n
amount would_block = 0
amount (failed e) = 0

abbrev put_in : ℕ → Written ℕ
put_in n = wrote n

wrote-inj : (a b : ℕ) → put_in a ≡ put_in b → a ≡ b
unfolding amount
wrote-inj a b e = ap amount e

abbrev letters : List ℕ
letters = 97 ∷ 98 ∷ 99 ∷ []

abbrev empty_port : Port
empty_port = record { sent = []; received = []; incoming = letters }

write_all-again_example :
    (end : Port) × (k : ℕ) × (ns : List ℕ) × (write_all ⦃u = ports (λ _. 2)⦄ 9 empty_port letters
      ≡ some (all_sent, end))
    × (end.sent ≡ (97 ∷ 98 ∷ []) ++ (take (suc k) letters ++ beginnings letters ns))
    × (3 ≤ 2 + (suc k + sum ns))
write_all-again_example =
    write_all-again ⦃u = ports (λ _. 2)⦄ (λ port. port.sent)
      (λ port bytes n e. ap (λ (k : ℕ). port.sent ++ take k bytes) (wrote-inj 2 n e)) letters
      (λ port. (1, refl)) 9 1 empty_port (omega arith) refl (omega arith)

wide-Whole : Whole ⦃u = ports length⦄ (λ port. port.sent) (λ port. port.received)
wide-Whole = record {
  takes = λ port bytes. refl;
  written = λ port bytes n e.
      (ap (λ (k : ℕ). port.sent ++ take k bytes) (wrote-inj (length bytes) n e), refl);
  reads = λ port bytes. fetched port port.incoming bytes;
  reads_nothing = λ port. fetched_nothing port port.incoming;
  fails = λ port e. fetched_never port port.incoming e;
  polls = λ device port. (refl, refl);
}
  where
    fetched :
        (port : Port) (xs bytes : List ℕ)
        → (fetch port xs).0 ≡ got bytes
        → ((fetch port xs).1.sent ≡ port.sent)
          × ((fetch port xs).1.received ≡ port.received ++ bytes)
    fetched port [] bytes e = cc
    fetched port (x ∷ xs) bytes e = (refl, ap (λ (l : List ℕ). port.received ++ l) cc)

    fetched_nothing :
        (port : Port) (xs : List ℕ)
        → (fetch port xs).0 ≡ nothing
        → ((fetch port xs).1.sent ≡ port.sent) × ((fetch port xs).1.received ≡ port.received)
    fetched_nothing port [] e = (refl, refl)
    fetched_nothing port (x ∷ xs) e = cc

    fetched_never :
        (port : Port) (xs : List ℕ) (error : ℕ)
        → (fetch port xs).0 ≡ broken error
        → ((fetch port xs).1.sent ≡ port.sent) × ((fetch port xs).1.received ≡ port.received)
    fetched_never port [] error e = cc
    fetched_never port (x ∷ xs) error e = cc

usb_rounds-echo_example :
    (device' : Unit {0}) × (port' : Port) × (usb_rounds ⦃u = ports length⦄ 7 3 tt empty_port
      ≡ some (device', port'))
    × (port'.sent ≡ port'.received)
usb_rounds-echo_example =
    usb_rounds-echo ⦃u = ports length⦄ (λ port. port.sent) (λ port. port.received) wide-Whole 5 3 tt
      empty_port refl

idle_clock_empty : length (list_heap.items idle_clock.queue) < 32
unfolding idle_clock
idle_clock_empty = omega arith

running_not_idle : running.current_task ≢ 0
running_not_idle = λ e. absurd (omega (arith, running_current, e))

delay_ms-Waits_example :
    (ticks : ℕ) × (500 * 1000 ≤ ticks * 1000)
    × (ticks * 1000 < 500 * 1000 + 1000)
    × WaitsUntil
        (world running idle_clock)
        running
        idle_clock
        refl
        refl
        running-Inv
        plain
        worker
        idle_clock_empty
        running_runs
        refl
        running_not_idle
        (idle_clock.time + ticks)
        (delay_ms plain (record { tick_freq = 1000 }) 500 (world running idle_clock))
delay_ms-Waits_example =
    delay_ms-Waits (world running idle_clock) running idle_clock refl refl running-Inv plain worker
      idle_clock_empty running_runs refl running_not_idle (record { tick_freq = 1000 }) 500
      (omega arith) (omega arith) (omega (arith, idle_clock_time))

abbrev idle_stack : StackRange
idle_stack = record { start = 1000; end = 2024 }

abbrev printing : ℕ → StackRange → Job
printing letter stack =
    job (record { code = 512; captured = letter ∷ letter ∷ letter ∷ letter ∷ [] }) stack default

abbrev first_stack : StackRange
first_stack = record { start = 4000; end = 12192 }

abbrev second_stack : StackRange
second_stack = record { start = 12192; end = 20384 }

printing-IsReady :
    (letter : ℕ) (stack : StackRange)
    → stack.start + 96 ≤ stack.end
    → stack.end % 8 ≡ 0
    → stack.end < 2 ^ 32
    → IsReady (printing letter stack)
unfolding padded default
printing-IsReady letter stack room aligned small = record {
  room = omega (arith, room);
  small = small;
  aligned = aligned;
  word = omega arith;
  ready = omega arith;
}

abbrev cpu : Cpu
cpu = record { reg = zeros; fp = zeros; psp = 0; zero_flag = false; memory = untouched.memory }

main-Enters_example : Enters zeros idle_stack (printing 97 first_stack) (printing 98 second_stack) (
    main plain 0
      (some tt)
      (some tt)
      (printing 97 first_stack).closure
      (printing 98 second_stack).closure
      first_stack
      second_stack
      untouched)
main-Enters_example =
    main-Enters zeros plain 0 cpu no_context untouched idle_stack (printing 97 first_stack).closure
      (printing 98 second_stack).closure first_stack second_stack refl refl
      (printing-IsReady 97 first_stack (omega arith) refl (omega arith))
      (printing-IsReady 98 second_stack (omega arith) refl (omega arith)) (inr (omega arith))
      (inr (omega arith)) (inr (omega arith))

running-Pair : Pair plain blank 5 1 2 running
unfolding running
running-Pair = record {
  inv = running-Inv;
  all = λ t i at. refl;
  top = λ t i at ready. ground (arith, at);
  runs = running_current;
  waits = refl;
  info = worker;
  there = running_runs;
  ready = refl;
  level = refl;
}

yields-Pair_example :
    (s' : SchedulerState) × (yields plain blank (λ k. (3000 + k, 5000 + k)) 500 running ≡ ok s')
    × Pair plain blank 5 1 2 s'
yields-Pair_example =
    yields-Pair plain blank (λ k. (3000 + k, 5000 + k)) 500 5 1 2 running (omega arith) running-Pair
