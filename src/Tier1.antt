-- ===== src/Tier1.antt =====
-- The direct integer functions of src/pg_jit_funcs.c, which compiled code calls in place of the
-- PostgreSQL functions (tier 1), and the laws that they keep.
pub mod Checked
pub mod Arith
pub mod Compare
pub mod Cast
pub mod Shift
pub mod Sum
pub mod Words
