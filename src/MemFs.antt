-- ===== src/MemFs.antt =====
-- include/fs/mem_fs_node.hpp: files and directories in memory.
pub mod File
pub mod Contents
pub mod Dir
mod Tests
