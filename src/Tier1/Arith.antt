-- ===== src/Tier1/Arith.antt =====
-- Integer arithmetic of src/pg_jit_funcs.c: int4, int8 and int2, and the date functions on int4.
pub mod Defs
pub mod Exact
pub mod Checks
pub mod Division
