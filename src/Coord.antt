-- ===== src/Coord.antt =====
-- The coordinator of xnd/coordinator/xnd_coord.c.
pub mod Base
pub mod Connect
pub mod Message
pub mod Suspend
pub mod Barrier
pub mod Checkpoint
pub mod Serve
pub mod Samples
mod Tests
mod ConnectTests
