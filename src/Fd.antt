-- ===== src/Fd.antt =====
-- The table of a process's open files, with its reference counts (xnd/fd_table.h, xnd/fd_table.c).
pub mod Base
pub mod Wrappers
pub mod Save
pub mod Restore
mod SampleKernel
pub mod Laws
pub mod History
mod Tests
mod RestoreTests
