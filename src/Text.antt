-- ===== src/Text.antt =====
-- Rust's `str` as the list of its UTF-8 bytes, with the parts of the standard library that the
-- crate calls on it: `str::from_utf8`, `trim`, `eq_ignore_ascii_case`, `parse::<usize>`, `==`.
pub mod Utf8
pub mod Trim
pub mod Numbers
pub mod Print
pub mod Compare
pub mod Sort
