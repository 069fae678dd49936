-- ===== src/Lib.antt =====
-- taskette, a task scheduler for microcontrollers: the kernel, its timer and futex, the delays,
-- the crates of the chips, and the demos.
--
-- The kernel is taskette/src/scheduler.rs. Its statics are the record World in Kernel.antt, with
-- the memory in which the stacks lie and the request for a switch that the hardware has not
-- served. A function that changes state is a function from the state to the outcome, a value, an
-- Err or a panic, and the state after it (Outcome.antt). A critical section runs without
-- interruption. A call is one step here, and the interleavings of tasks and interrupts are the
-- sequences of calls. That is a simplification where a call has more than one critical section or
-- step: spawn prepares the stack before it registers the task, wait_until asks for the id of the
-- task before it registers and blocks it, the end of call_closure asks for the id before it
-- removes the task, and the switch that a call requests is requested after its critical section;
-- what other tasks and interrupts do in between is left out there. It is modelled for wait,
-- between its first test and its critical section, for a waker, between the store and wake_all,
-- and for block_on, between a wait and the next poll. Program.antt has the sequences of calls as
-- a relation, with the calls that tasks and interrupts make; Program/Ending, Program/Calls and
-- Program/Keeping say how each call ends and what it keeps, and Program/Boot models the calls of
-- init and start, and Program/Sleeping follows a task that sleeps through the ticks.
--
-- Scheduler/Queues models enqueue_task, dequeue_task and remove_task_from_queue; Scheduler/Switch
-- select_task; Scheduler/Tasks spawn, block_task, unblock_task, remove_task, current_task_id and
-- the end of call_closure; Scheduler/Init init, start and get_config; Scheduler/Canary the
-- canary, and Scheduler/Invariant/Overflow the switch away from a task whose stack has
-- overflowed. Scheduler/Invariant and its children hold the invariant, Scheduler/Calls the calls
-- at the state of the program, and Scheduler/Scan a choice of the next task without the bit map.
-- Timer models taskette/src/timer.rs and handle_tick, Futex taskette/src/futex.rs, Task
-- taskette/src/task.rs, Delay taskette-utils/src/delay.rs, Cortex taskette-cortex-m/src/lib.rs
-- and Esp taskette-esp-riscv/src/lib.rs, whose context switches are lists of instructions that
-- are executed on a record of registers. Contexts says what the tasks that do not run keep;
-- Cortex/Multitasking and Esp/Multitasking put the context switches together with the kernel,
-- from spawn to the switches, and Cortex/Multitasking/Booting from init on. Cortex/System has the
-- processor, the kernel and the tasks as one step relation, with the handler of v7m: a task
-- computes, calls the kernel, is interrupted, spawns a task, or is switched away from. Futures
-- models the executor of taskette-utils/src/futures.rs. Heapless holds the containers of the
-- crate heapless as parameters with their documented laws, and plain lists that meet them. Demos
-- models the programs under examples: Demos/Qemu, Demos/Rp2040, Demos/Rp235x and Demos/Benchmark
-- the main functions for Cortex-M, Demos/Esp those for RISC-V, Demos/Benchmark/Yielding the two
-- tasks of the benchmarks, Demos/Usb the task that echoes, and Demos/Blink the one that blinks.
-- Examples holds concrete states.
--
-- Words have 32 bits and the clock 64, with the wrap-around or the panic of an overflow written
-- out. The rounds of wake are structural recursion on their number. The loop of block_on has
-- fuel, one more than the polls that its future needs, and that of write_all has one more than
-- the bytes where each call of the port takes a byte or more.
--
-- What other crates do is a parameter: the containers of heapless, the timer of esp_hal with its
-- start and its acknowledgement of an interrupt, the poll of a future, the serial port, the pins,
-- and the peripherals that a board gives. The idle task's stack is a cell of static_cell, which
-- gives its content once.
--
-- Not modelled: logging, the wait for an interrupt in the idle loop, the clone and drop of a
-- waker, which change nothing, the light of the demo for the ESP, and the programs under tests.
pub mod Base
pub mod Heapless
pub mod Outcome
pub mod Memory
pub mod Kernel
pub mod Scheduler
pub mod Timer
pub mod Futex
pub mod Task
pub mod Delay
pub mod Futures
pub mod Machine
pub mod Contexts
pub mod Cortex
pub mod Demos
pub mod Esp
pub mod Program
pub mod Examples
