-- ===== src/Follow.antt =====
-- fdwatch/evrdr.c: a file is read as it grows, on the events of a kqueue. Events has the events and
-- what is done on each, Loop the watch loop, Pieces, Served and Whole are about the
-- bytes that are read.
mod Events
mod Loop
mod Pieces
mod Served
pub mod Whole
mod Tests
