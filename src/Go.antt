-- ===== src/Go.antt =====
-- What the Go runtime does at an index or a slice out of range: it panics.
pub mod Slices
pub mod Cursor
pub mod Strings
