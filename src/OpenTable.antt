-- ===== src/OpenTable.antt =====
-- Open addressing with linear probing, as src/pg_jitter_simd.c uses it for IN lists of integers and of
-- texts: the loops that the bodies repeat, over any type of slots, and what they keep.
pub mod Defs
pub mod Probing
pub mod Filled
pub mod Membership
