-- ===== src/Syscall.antt =====
-- syscall.cpp: the dispatch on `rax`, and the system calls.
pub mod Calls
pub mod Dispatch
pub mod Brk
mod Tests
