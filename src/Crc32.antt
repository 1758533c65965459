-- ===== src/Crc32.antt =====
-- crc32.intel/crc32.c
pub mod Tables
pub mod Spec
pub mod Code
pub mod Shift
pub mod Checked
pub mod Rounds
pub mod Correct
pub mod Hardware
mod Tests
