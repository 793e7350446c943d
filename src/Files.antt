-- ===== src/Files.antt =====
-- The names of files: xnd/util/path.c and the names, the manifest and the checks of
-- xnd/ckptfile.c.
pub mod Paths
pub mod Names
mod Tests
