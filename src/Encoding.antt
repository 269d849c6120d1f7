-- ===== src/Encoding.antt =====
-- The standard library's encodings that the code calls: base64, lower-case hex, UTF-8 and UTF-16.
pub mod Base64
pub mod Hex
pub mod Utf8
