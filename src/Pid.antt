-- ===== src/Pid.antt =====
-- Virtual process ids: xnd/virtual_id_table.h and xnd/pid/.
pub mod Table
