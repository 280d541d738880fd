-- ===== src/Mm.antt =====
-- mm/mm.cpp: the kernel's page table and its segments, set up once at boot.
pub mod Image
pub mod Walk
pub mod Kernel
pub mod Segments
pub mod Installed
pub mod Count
pub mod Leaves
pub mod Totals
pub mod Boot
mod Tests
