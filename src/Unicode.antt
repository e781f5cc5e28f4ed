-- ===== src/Unicode.antt =====
-- What the source uses of Go's unicode/utf8 and unicode/utf16, as those packages document it.
pub mod Utf8
pub mod Utf16
