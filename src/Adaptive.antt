-- ===== src/Adaptive.antt =====
-- The adaptive statistics of src/pg_jitter_meta.c: what each backend cost for each shape of expression.
pub mod Table
pub mod Lookup
pub mod Profile
pub mod Select
pub mod Cheapest
pub mod Pools
pub mod Costs
pub mod Choice
