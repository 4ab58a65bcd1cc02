-- ===== src/CaseDetect.antt =====
-- CASE detection: the part of src/pg_jitter_common.c that finds, in the steps of an expression, the
-- CASE expressions that a binary search can answer, and builds their descriptors.
pub mod Steps
pub mod Classify
pub mod Branches
pub mod Build
pub mod Detect
pub mod Laid
pub mod Runs
pub mod Found
pub mod Recorded
pub mod Select
pub mod Order
pub mod Sorted
pub mod Helpers
pub mod Kept
pub mod Ordered
pub mod Descriptor
pub mod Addresses
pub mod Meaning
pub mod Terminates
pub mod Replaced
pub mod Ranges
pub mod RangeBuild
pub mod UpperEnds
pub mod RangeMeaning
pub mod RangeReplaced
pub mod RangeFound
pub mod RangeEnds
pub mod Passes
