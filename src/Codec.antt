-- ===== src/Codec.antt =====
-- c/src/code/: encodings and checksums of byte strings.
pub mod Base64
pub mod Crc32
pub mod QuotedPrintable
