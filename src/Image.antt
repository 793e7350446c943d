-- ===== src/Image.antt =====
-- The checkpoint image: what xnd/writeckpt.c writes of a process and what xnd/readckpt.c and
-- xnd/vm_restore.c make of it.
pub mod Base
pub mod Vm
pub mod Read
pub mod Write
pub mod Format
pub mod RoundTrip
pub mod Scan
mod Samples
mod SampleVm
mod Tests
