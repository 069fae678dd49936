-- ===== src/Demos.antt =====
-- The programs under examples/, which put the library to use: `Rp2040`, `Rp235x` and `Qemu` are
-- the demos of the Cortex-M boards, `Benchmark` is the benchmark, and `Esp` are the demo and the
-- benchmark for RISC-V; `Usb` and `Blink` are the tasks of the demos. Code of other packages that
-- they call is a parameter.
pub mod Booting
pub mod Usb
pub mod Qemu
pub mod Rp2040
pub mod Rp235x
pub mod Benchmark
pub mod Blink
pub mod Esp
use taskette.Base.{ℕ, Option, none, some, List}
use taskette.Heapless.{DequeLib, IndexMapLib, BinaryHeapLib}
use taskette.Outcome.{Outcome, ok, panic, Features}
use taskette.Outcome.Run.{M, ◌>>=◌, expect}
use taskette.Kernel.{World, SchedulerConfig}
use taskette.Task.{TaskConfig}
use taskette.Scheduler.Init.{Handle, Launch, start}
use taskette.Cortex.Entry.{init_scheduler}
use taskette.Scheduler.Tasks.{Arch, StackRange, spawn}

-- `Option::unwrap`
abbrev pub unwrap : {S A : Type 0} → Option A → M S A
unwrap none s = (panic, s)
unwrap (some a) s = (ok a, s)

-- A closure: the address of its code, and the bytes that it has captured.
pub record Closure : Type 0 where
  pub code : ℕ
  pub captured : List ℕ

-- What `spawn` is called with.
pub record Job : Type 0 where
  pub closure : Closure
  pub stack : StackRange
  pub config : TaskConfig

abbrev pub job : Closure → StackRange → TaskConfig → Job
job closure stack config = record { closure = closure; stack = stack; config = config }

-- What the packages of a board give: the peripherals of the chip and of the core, which can be
-- taken once, and the frequency that the system clock is set to.
pub record Board : Type 0 where
  pub peripherals : Option (Unit {0})
  pub system_clock : Option ℕ
  pub core_peripherals : Option (Unit {0})

module _ ⦃d : DequeLib⦄ ⦃m : IndexMapLib⦄ ⦃h : BinaryHeapLib⦄ where
  -- `init_scheduler(…).unwrap()`, of the Cortex-M crate.
  unfoldable pub new_scheduler : Features → ℕ → SchedulerConfig → M World Handle
  new_scheduler f clock_freq config = init_scheduler f clock_freq config >>= unwrap

module _ ⦃d : DequeLib⦄ ⦃m : IndexMapLib⦄ ⦃h : BinaryHeapLib⦄ (f : Features) (chip : Arch) where
  -- `spawn(…).unwrap()`
  abbrev pub spawn_job : Job → M World ℕ
  spawn_job j = expect (spawn f chip j.closure.code j.closure.captured j.stack j.config.priority)

  -- What a `main` ends with: two tasks, and the start.
  unfoldable pub run_two : Handle → Job → Job → M World Launch
  run_two handle first second = do id ← spawn_job first; id ← spawn_job second; start chip handle
