-- ===== src/Examples.antt =====
-- Runs of the definitions on concrete values, and the theorems at such values.
mod Ordered
mod Checked
mod Compared
mod Searched
mod Sorting
mod Detected
mod Ranged
mod Listed
mod Liked
mod Measured
mod Scanned
mod Cached
mod Shared
mod Texts
mod Released
mod Bitmaps
mod Chosen
