-- ===== src/Pcre2.antt =====
-- src/pg_jitter_pcre2.c: the cache of compiled patterns, and the translation of LIKE patterns.
pub mod Cache
pub mod Regex
