-- ===== src/Queue/Tests.antt =====
-- Runs of the queue, and its theorems at concrete inputs.
use bsl45_misc_tools.Prelude.{◌≡◌, refl, arith, List, [], ◌∷◌, true, none, some, pos, done}
use bsl45_misc_tools.Queue.{
  PQueue, minus_one, enoent, enomem, pqueue_create, pqueue_get, pqueue_put, load, store, advance,
  in_range, dump_loop, pqueue_dump, wrapped, bad_pointer, pqueue_count, pqueue_is_empty,
}
use bsl45_misc_tools.Queue.Fifo.{Holds}
use bsl45_misc_tools.Queue.Session.{
  Call, get, put, dump, count, item, status, printed, size, perform, perform_all, fifo_all,
  session_refines,
}

abbrev script : List Call
script = put 7 ∷ put 8 ∷ put 9 ∷ get ∷ put 10 ∷ dump ∷ get ∷ get ∷ get ∷ count ∷ []

abbrev empty_pair : PQueue
empty_pair = record {
  slots = 0 ∷ 0 ∷ [];
  max_count = 2;
  count = 0;
  head = minus_one;
  tail = minus_one;
}

-- The third item does not fit, the fourth goes round the end of the array.
perform_all-script :
    perform_all empty_pair script
    ≡ done (
        status (pos 0) none
        ∷ status (pos 0) none
        ∷ status minus_one (some enomem)
        ∷ item 7 none
        ∷ status (pos 0) none
        ∷ printed (8 ∷ 10 ∷ [])
        ∷ item 8 none
        ∷ item 10 none
        ∷ item bad_pointer (some enoent)
        ∷ size 0
        ∷ [])
unfolding perform_all perform pqueue_get pqueue_put pqueue_dump dump_loop load store advance
    in_range wrapped pqueue_count pqueue_is_empty
perform_all-script = refl

empty_pair-Holds : Holds empty_pair []
empty_pair-Holds = record {
  small = omega arith;
  sized = refl;
  counted = refl;
  fits = omega arith;
  placed = (refl, refl);
}

session_refines_example :
    (pq : PQueue) × (pqueue_create true true 2 ≡ some pq)
    × (perform_all pq script ≡ done (fifo_all 2 [] script))
session_refines_example = session_refines 2 script (omega arith)
