-- ===== src/CaseSearch.antt =====
-- Compiled CASE expressions: the binary searches of src/pg_jitter_common.c that replace the chain of
-- WHEN tests, with the chain itself as the specification.
pub mod Defs
pub mod Halving
pub mod Exact
pub mod Searched
pub mod Threshold
pub mod Range
pub mod Equal
