-- ===== src/Go.antt =====
-- What the repository uses of Go's standard library on strings and numbers.
pub mod Strconv
pub mod Strings
pub mod Fmt
pub mod Hex
pub mod Ints
pub mod Slices
mod Examples
