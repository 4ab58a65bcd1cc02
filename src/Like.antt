-- ===== src/Like.antt =====
-- The LIKE matchers of src/pg_jitter_simd.c: patterns that are one literal with `%` around it, and the
-- compiled form with segments between `%` and pieces between `_`.
pub mod Pattern
pub mod Fast
pub mod Parts
pub mod Found
pub mod Classified
pub mod Complete
pub mod Compiled
pub mod Scan
