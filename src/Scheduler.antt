-- ===== src/Scheduler.antt =====
-- taskette/src/scheduler.rs. The operations stand in the first group of children, their proofs in
-- the second.
pub mod Queues
pub mod Canary
pub mod Switch
pub mod Tasks
pub mod Init
pub mod Invariant
pub mod Calls
pub mod RoundRobin
pub mod EarlyWake
pub mod Scan
