-- ===== src/Text.antt =====
-- Go strings: byte strings, with the functions of package strings that the program calls.
-- Case mapping is that of the ASCII letters; the bytes above 127 are left alone.
mod Defs
pub mod Equality
pub mod Lines
unfoldable pub use Defs.*
