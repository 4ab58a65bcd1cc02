-- ===== src/SharedCode.antt =====
-- The area in shared memory in which the leader of a parallel query stores the code of its expressions
-- and the workers find it: src/pg_jitter_common.c.
pub mod Defs
pub mod Laid
pub mod Log
pub mod Framed
pub mod Store
