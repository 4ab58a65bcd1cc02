-- ===== src/NullBitmap.antt =====
-- The check of a null bitmap in src/pg_jitter_simd.c.
pub mod Defs
pub mod Columns
pub mod Scanned
