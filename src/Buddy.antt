-- ===== src/Buddy.antt =====
-- mm/page_alloc.cpp: the buddy allocator.
pub mod Defs
pub mod Ops
pub mod Tree
pub mod Address
mod Tests
pub mod Ring
pub mod Lists
pub mod Split
pub mod Granted
pub mod Alloc
pub mod Init
pub mod Source
pub mod Whole
pub mod Kept
pub mod Halves
pub mod Merge
pub mod Free
pub mod Fill
pub mod Release
pub mod Cycle
