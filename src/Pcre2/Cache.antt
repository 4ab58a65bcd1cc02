-- ===== src/Pcre2/Cache.antt =====
-- The cache of compiled patterns: 64 slots, entries that generated code pins, and eviction.
pub mod Defs
pub mod Valid
pub mod Slots
pub mod Compile
pub mod Kept
pub mod Choice
pub mod Replaced
pub mod Searched
pub mod Delivers
pub mod Safe
