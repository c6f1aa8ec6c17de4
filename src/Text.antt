-- ===== src/Text.antt =====
-- c/src/string/: escaping, letter case and trimming of byte strings.
pub mod Slashes
pub mod Trim
