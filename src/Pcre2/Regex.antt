-- ===== src/Pcre2/Regex.antt =====
-- `like_to_regex`: a LIKE pattern as a regular expression of PCRE2.
pub mod Defs
pub mod Stripped
pub mod Reading
pub mod Meaning
pub mod Size
