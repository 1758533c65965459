-- ===== src/Queue/Casts.antt =====
-- `pqueue_iput` and `pqueue_iget` of queue/queue.h: a queue of `int`s.
use bsl45_misc_tools.Prelude.{
  ℕ, ◌-◌, ◌%◌, ◌^◌, ◌<◌, ◌≡◌, arith, [], Option, none, ltb, if◌then◌else◌, ℤ, pos, negsuc, ◌≤ℤ◌,
  Exec, done, ◌>>=◌,
}
use bsl45_misc_tools.Queue.{PQueue, Errno, pqueue_get, pqueue_put}
use bsl45_misc_tools.Queue.Fifo.{Holds, pqueue_get_lem, pqueue_put_lem}

-- `(void*) (long) val`.
unfoldable pub to_pointer : ℤ → ℕ
to_pointer (pos n) = n % 2 ^ 64
to_pointer (negsuc n) = 2 ^ 64 - 1 - n

-- `(int) (long) p`: the low 32 bits, read as a signed number.
unfoldable pub to_int : ℕ → ℤ
to_int p = let low = p % 2 ^ 32 in if ltb low (2 ^ 31) then pos low else negsuc (2 ^ 32 - 1 - low)

unfoldable pub pqueue_iget : PQueue → Exec (ℤ × Option Errno × PQueue)
pqueue_iget q = do (val, errno, q') ← pqueue_get q; done (to_int val, errno, q')

unfoldable pub pqueue_iput : PQueue → ℤ → Exec (ℤ × Option Errno × PQueue)
pqueue_iput q val = pqueue_put q (to_pointer val)

abbrev pub IsInt : ℤ → Type 0
IsInt z = (negsuc (2 ^ 31 - 1) ≤ℤ z) × (z ≤ℤ pos (2 ^ 31 - 1))

to_int-to_pointer : (z : ℤ) → IsInt z → to_int (to_pointer z) ≡ z
unfolding to_int to_pointer
to_int-to_pointer z h = ground arith

-- An `int` put into an empty queue with room comes back from it unchanged, a negative one too.
pqueue_iget-iput :
    (q : PQueue) (z : ℤ)
    → Holds q []
    → 0 < q.max_count
    → IsInt z
    → (q' q'' : PQueue) × (pqueue_iput q z ≡ done (pos 0, none, q'))
      × (pqueue_iget q' ≡ done (z, none, q''))
unfolding pqueue_iget pqueue_iput
pqueue_iget-iput q z h room int =
    let (q', e, h', m) = pqueue_put_lem q (to_pointer z) [] h room in
    let (q'', e', h'', m') = pqueue_get_lem q' (to_pointer z) [] h' in
    (q', q'', e, rw (e', to_int-to_pointer z int))
