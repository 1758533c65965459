-- ===== src/DynSync.antt =====
-- debugsync/debugsync_dyn.c: sync points in an array that grows and is kept in the order of names.
-- Points has the array, Calls the interface, Threads the steps of threads that call it; Names, Insert
-- and Acquire are about the order, Lookup about ds_set, Keeps, Runs and Waits about what threads can
-- reach.
mod Points
mod Calls
mod Threads
mod Keeps
mod Names
mod Insert
pub mod Acquire
pub mod Lookup
pub mod Runs
pub mod Waits
mod Tests
