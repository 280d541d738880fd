-- ===== src/Irq.antt =====
-- irq.cpp: the table of interrupt gates and the handlers behind it.
pub mod Gates
pub mod Vectors
pub mod Handlers
mod Tests
