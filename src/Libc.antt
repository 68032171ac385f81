-- ===== src/Libc.antt =====
-- The functions of the C library that the programs use on memory, as the C standard and the GNU
-- manual describe them. Memory is one object `m`; pointers into it are indices; every byte is
-- read by `load`, so that a read outside the object is a `fault`.
mod Search
mod Least
unfoldable pub use Search.*
pub use Least.*
