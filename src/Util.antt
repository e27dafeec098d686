-- ===== src/Util.antt =====
-- src/base/MyUtil.cpp and src/base/MyUtil.h: bytes as hexadecimal text, splitting a text at a
-- separator, copying into a buffer of a given size, and parsing a comparison. Text is a list of bytes. A
-- read or a write out of bounds is `none`.
pub mod Hex
pub mod Split
pub mod Copy
pub mod Formula
mod Tests
