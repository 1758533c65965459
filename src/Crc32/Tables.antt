-- ===== src/Crc32/Tables.antt =====
-- The lookup tables of crc32.intel/crc32.c.
mod Single
mod Low
mod High
unfoldable pub use Single.*
unfoldable pub use Low.*
unfoldable pub use High.*
