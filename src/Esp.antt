-- ===== src/Esp.antt =====
-- The crate for the ESP32 chips with RISC-V cores, taskette-esp-riscv/src/lib.rs: `Switch` is the
-- context switch, `Stack` the stack that a new task starts with, `Ticks` the timer.
pub mod Switch
pub mod Stack
pub mod Ticks
pub mod Entry
pub mod Launch
pub mod Multitasking
