-- ===== src/DebugSync.antt =====
-- debugsync/debugsync.c: synchronisation points that threads reach, hold and release. Points has the
-- state and its helpers, Calls the interface functions, Threads their interleavings, Blocked what
-- keeps a thread asleep, Effects what a section changes for the others, Runs the invariant of all runs,
-- Names how points are found.
mod Points
mod Calls
mod Threads
mod Blocked
mod Effects
mod Sections
pub mod Runs
pub mod Names
mod Tests
