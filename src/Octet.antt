-- ===== src/Octet.antt =====
-- lib/oct.c: operations on octet strings.
pub mod Chars
pub mod Compare
pub mod Search
pub mod Escape
pub mod Number
