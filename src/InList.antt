-- ===== src/InList.antt =====
-- The constant IN lists of src/pg_jitter_simd.c over int4: the sorted array with its branchless
-- search, and the open-addressing hash table.
pub mod SortedArray
pub mod HashTable
pub mod Membership
