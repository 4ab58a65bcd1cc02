-- ===== src/Context.antt =====
-- The life of a JIT context in src/pg_jitter_common.c: the compiled code that is registered in it, its
-- auxiliary memory, and its release.
pub mod Defs
pub mod Conserved
