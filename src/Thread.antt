-- ===== src/Thread.antt =====
-- The suspension of a process's threads for a checkpoint (xnd/thread_info.c): the threads, the lists
-- they stand in, the checkpoint thread's scans, and the runs of all of them together.
pub mod Base
pub mod Suspend
pub mod Run
mod Tests
