-- ===== src/ScalarArray.antt =====
-- The evaluation of `x op ANY (array)` and `x op ALL (array)`: `pg_jitter_scalararrayop_loop` of
-- src/pg_jitter_simd.c and the integer searches it dispatches to.
pub mod Search
pub mod Defs
pub mod Stored
pub mod Kleene
pub mod Answers
pub mod Ends
pub mod Evaluated
