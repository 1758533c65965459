-- ===== src/Wal.antt =====
-- wal/wbuft.c: a benchmark of ways to write a file. Options reads the command line, Sync asks for
-- the data to be synchronised, Writing has the two ways of writing, Run the rounds of the test.
mod Options
mod Sync
mod Writing
mod Run
pub mod Settings
pub mod Chunks
pub mod Rounds
mod Turns
pub mod SyncThread
pub mod Endings
pub mod Writes
pub mod Whole
pub mod Sizes
mod Tests
