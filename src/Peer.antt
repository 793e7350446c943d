-- ===== src/Peer.antt =====
-- The part of the library that runs in a process of the computation: xnd/thread_info.h,
-- xnd/coordinator/xnd_coord_client.c and xnd/pid/pid_wrappers.c.
pub mod Base
pub mod Translate
pub mod Pid
pub mod Proc
pub mod Agree
mod Tests
