-- ===== src/TextHash.antt =====
-- The IN lists over texts of src/pg_jitter_simd.c: the hash table that is built when an expression is
-- compiled, from the texts or from a constant array, and its probe.
pub mod Defs
pub mod Membership
pub mod FromArray
