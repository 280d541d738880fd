-- ===== src/Process.antt =====
-- include/process.h and process.cpp: processes, the table that holds them, and the scheduler.
pub mod Defs
pub mod Paging
pub mod Table
pub mod RoundRobin
pub mod Fairness
pub mod Create
pub mod Elf
mod Tests
pub mod Samples
