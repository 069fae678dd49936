-- ===== src/Cortex.antt =====
-- The crate for Cortex-M, taskette-cortex-m/src/lib.rs: `PendSv` are its three context switches,
-- `Stack` the stack that a new task starts with, `SysTick` the timer, `Entry` and `Launch` the way
-- into the kernel and to the first task. `Multitasking` puts them together with the kernel, and
-- `System` is the whole, one step at a time.
pub mod PendSv
pub mod Stack
pub mod SysTick
pub mod Entry
pub mod Launch
pub mod Multitasking
pub mod System
