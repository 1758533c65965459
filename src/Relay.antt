-- ===== src/Relay.antt =====
-- fdwatch/frelay.c: a file is copied to another one over and over, portion by portion, and the copy is
-- replaced by an empty file when it has grown. Files has the state and the replacement, Loop the rest;
-- Rounds and Served are about what is copied, Stale about an interrupted pause.
mod Files
mod Loop
mod Rounds
pub mod Served
pub mod Stale
mod Tests
