-- ===== src/Sort.antt =====
-- sort/simple_sort.c: Code has the sorts as written, Sweep follows one sweep of bubble_sort, Bubble
-- is about the whole of it, Faults about the accesses of selection_sort outside of its array.
mod Code
mod Sweep
pub mod Bubble
pub mod Faults
mod Tests
