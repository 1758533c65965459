-- ===== src/Align.antt =====
-- memalign/unalcalc.c: words are written to a block of memory from an offset on, which can be aligned.
-- Code has the program, Bounds is about the words that are written.
mod Code
pub mod Bounds
mod Tests
