-- ===== src/Queue/Session.antt =====
-- Any sequence of calls on a queue of queue/queue.c, as a client sees it.
use bsl45_misc_tools.Prelude.{
  ℕ, ◌^◌, ◌<◌, ◌≡◌, refl, ◌∙◌, ap, arith, List, [], ◌∷◌, ◌++◌, Bool, true, false, Option, none,
  some, ltb, ltb→lt, if◌then◌else◌, Bool-cases, inl, inr, ℤ, pos, Exec, done, ◌>>=◌, length,
  length-replicate,
}
use bsl45_misc_tools.Queue.{
  PQueue, Errno, enoent, enomem, minus_one, bad_pointer, pqueue_create, pqueue_get, pqueue_put,
  pqueue_count, pqueue_is_empty, pqueue_dump,
}
use bsl45_misc_tools.Queue.Fifo.{
  Holds, pqueue_get_lem, pqueue_put_lem, pqueue_get-empty, pqueue_put-full, pqueue_dump_lem,
}

pub data Call : Type 0 where
  get count is_empty dump : Call
  put : ℕ → Call

-- What a call returns, with what it sets `errno` to.
pub data Reply : Type 0 where
  item : ℕ → Option Errno → Reply
  status : ℤ → Option Errno → Reply
  size : ℕ → Reply
  test : Bool → Reply
  printed : List ℕ → Reply

-- One call on the code's queue.
unfoldable pub perform : PQueue → Call → Exec (Reply × PQueue)
perform pq get = do (val, errno, pq') ← pqueue_get pq; done (item val errno, pq')
perform pq (put v) = do (rc, errno, pq') ← pqueue_put pq v; done (status rc errno, pq')
perform pq count = done (size (pqueue_count pq), pq)
perform pq is_empty = done (test (pqueue_is_empty pq), pq)
perform pq dump = do shown ← pqueue_dump pq; done (printed shown, pq)

unfoldable pub perform_all : PQueue → List Call → Exec (List Reply)
perform_all pq [] = done []
perform_all pq (c ∷ cs) = do (r, pq') ← perform pq c; rs ← perform_all pq' cs; done (r ∷ rs)

abbrev no_items : List ℕ → Bool
no_items [] = true
no_items (x ∷ xs) = false

-- One call on a FIFO of at most `cap` items.
unfoldable pub fifo : ℕ → List ℕ → Call → Reply × List ℕ
fifo cap [] get = (item bad_pointer (some enoent), [])
fifo cap (x ∷ xs) get = (item x none, xs)
fifo cap xs (put v) =
    if ltb (length xs) cap
    then (status (pos 0) none, xs ++ (v ∷ []))
    else (status minus_one (some enomem), xs)
fifo cap xs count = (size (length xs), xs)
fifo cap xs is_empty = (test (no_items xs), xs)
fifo cap xs dump = (printed xs, xs)

unfoldable pub fifo_all : ℕ → List ℕ → List Call → List Reply
fifo_all cap xs [] = []
fifo_all cap xs (c ∷ cs) = let (r, xs') = fifo cap xs c in r ∷ fifo_all cap xs' cs

-- A call ends, answers as the FIFO does, and leaves a queue that holds the FIFO's items.
abbrev Answers : PQueue → List ℕ → Call → Type 0
Answers pq xs c =
    (pq' : PQueue) × (perform pq c ≡ done ((fifo pq.max_count xs c).0, pq'))
    × Holds pq' (fifo pq.max_count xs c).1
    × (pq'.max_count ≡ pq.max_count)

perform_lem : (pq : PQueue) (xs : List ℕ) (c : Call) → Holds pq xs → Answers pq xs c
unfolding perform fifo pqueue_count pqueue_is_empty
perform_lem pq [] get h = (pq, rw (pqueue_get-empty pq h), h, refl)
perform_lem pq (x ∷ xs) get h = let (pq', e, h', m) = pqueue_get_lem pq x xs h in (pq', rw e, h', m)
perform_lem pq [] count h = (pq, rw h.counted, h, refl)
perform_lem pq [] is_empty h = (pq, rw h.counted, h, refl)
perform_lem pq [] dump h = (pq, rw (pqueue_dump_lem pq [] h), h, refl)
perform_lem pq (x ∷ xs) count h = (pq, rw h.counted, h, refl)
perform_lem pq (x ∷ xs) is_empty h = (pq, ground (arith, h.counted), h, refl)
perform_lem pq (x ∷ xs) dump h = (pq, rw (pqueue_dump_lem pq (x ∷ xs) h), h, refl)
perform_lem pq xs (put v) h = elim (Bool-cases (ltb (length xs) pq.max_count)) [
  | inl room ↦
      rw room
        (let (pq', e, h', m) = pqueue_put_lem pq v xs h (ltb→lt _ _ room) in (pq', rw e, h', m))
  | inr full ↦ rw full (pq, rw (pqueue_put-full pq v xs h (ground (arith, h.fits))), h, refl)
]

-- No assertion fails, no access leaves the array, and a client cannot tell the queue from the FIFO.
perform_all_lem :
    (pq : PQueue) (xs : List ℕ) (cs : List Call)
    → Holds pq xs
    → perform_all pq cs ≡ done (fifo_all pq.max_count xs cs)
unfolding perform_all fifo_all
perform_all_lem pq xs [] h = refl
perform_all_lem pq xs (c ∷ cs) h =
    let (pq', e, h', m) = perform_lem pq xs c h in
    rw (e, perform_all_lem pq' (fifo pq.max_count xs c).1 cs h', m)

pqueue_create-Holds :
    (capacity : ℕ)
    → capacity < 2 ^ 63
    → (pq : PQueue) × (pqueue_create true true capacity ≡ some pq)
      × Holds pq []
      × (pq.max_count ≡ capacity)
unfolding pqueue_create
pqueue_create-Holds capacity h = (
  _,
  refl,
  record {
    small = h;
    sized = length-replicate capacity 0;
    counted = refl;
    fits = omega arith;
    placed = (refl, refl);
  },
  refl,
)

-- A queue of any capacity below 2 ^ 63 that is created, with both requests for memory served,
-- answers every sequence of calls as a FIFO of that capacity that starts empty: the values, the
-- statuses, `errno` and what is printed; no assertion fails and no access leaves the array.
pub session_refines :
    (capacity : ℕ) (cs : List Call)
    → capacity < 2 ^ 63
    → (pq : PQueue) × (pqueue_create true true capacity ≡ some pq)
      × (perform_all pq cs ≡ done (fifo_all capacity [] cs))
session_refines capacity cs h =
    let (pq, e, held, m) = pqueue_create-Holds capacity h in
    (pq, e, perform_all_lem pq [] cs held ∙ ap (λ cap. done (fifo_all cap [] cs)) m)
