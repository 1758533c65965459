-- ===== src/Queue.antt =====
-- queue/queue.c and the casts of queue/queue.h: a FIFO of pointers over a circular array.
-- A function that changes `*pq` returns the new structure; the handle `queue_t` is the structure.
mod Walk
pub mod Fifo
pub mod Session
pub mod Casts
mod Tests
use bsl45_misc_tools.Prelude.{
  ℕ, zero, suc, ◌+◌, ◌-◌, ◌%◌, ◌^◌, List, [], ◌∷◌, Bool, ◌&&◌, Option, none, some, ◌==◌, leb,
  if◌then◌else◌, ℤ, pos, negsuc, leb_ℤ, ltb_ℤ, suc_ℤ, to_ssize, Exec, done, fault, ◌>>=◌, ◌>>◌,
  assert, access, length, get_elem?, set, replicate,
}

-- `struct pqueue`. `head` and `tail` are `ssize_t`, and pointers are plain words.
pub record PQueue : Type 0 where
  pub slots : List ℕ
  pub max_count : ℕ
  pub count : ℕ
  pub head : ℤ
  pub tail : ℤ

-- What `errno` is set to; `none` where the call leaves it alone.
pub data Errno : Type 0 where
  enoent enomem : Errno

-- `-1` as an index, and as a pointer.
abbrev pub minus_one : ℤ
minus_one = negsuc 0

abbrev pub bad_pointer : ℕ
bad_pointer = 2 ^ 64 - 1

-- `size_t` addition.
abbrev pub add_size : ℕ → ℕ → ℕ
add_size a b = (a + b) % 2 ^ 64

-- Both arguments say whether `calloc` serves a request: that for the structure, then that for the
-- array, which it fills with null pointers.
unfoldable pub pqueue_create : Bool → Bool → ℕ → Option PQueue
pqueue_create got_struct got_slots capacity =
    if got_struct && got_slots
    then some (record {
      slots = replicate capacity 0;
      max_count = capacity;
      count = 0;
      head = minus_one;
      tail = minus_one;
    })
    else none

unfoldable pub pqueue_count : PQueue → ℕ
pqueue_count pq = pq.count

unfoldable pub pqueue_is_empty : PQueue → Bool
pqueue_is_empty pq = 0 == pq.count

-- `data[i]`, read and written.
unfoldable pub load : List ℕ → ℤ → Exec ℕ
load slots (pos i) = access (get_elem? slots i)
load slots (negsuc _) = fault

unfoldable pub store : List ℕ → ℤ → ℕ → Exec (List ℕ)
store slots (pos i) val = if leb (length slots) i then fault else done (set slots i val)
store slots (negsuc _) val = fault

-- `i++`, back to 0 at the end of the array.
unfoldable pub advance : ℕ → ℤ → ℤ
advance max_count i = if leb_ℤ (to_ssize max_count) (suc_ℤ i) then pos 0 else suc_ℤ i

unfoldable pub in_range : ℕ → ℤ → Bool
in_range max_count i = leb_ℤ (pos 0) i && ltb_ℤ i (to_ssize max_count)

-- The head and the tail after an item is taken, `count` items being left.
abbrev pub ends_of_get : PQueue → ℕ → ℤ × ℤ
ends_of_get pq count =
    if 0 == count then (minus_one, minus_one) else (advance pq.max_count pq.head, pq.tail)

unfoldable pub pqueue_get : PQueue → Exec (ℕ × Option Errno × PQueue)
pqueue_get pq = if 0 == pq.count then done (bad_pointer, some enoent, pq) else do
  assert (in_range pq.max_count pq.head)
  val ← load pq.slots pq.head
  let left = pq.count - 1
  let ends = ends_of_get pq left
  done (val, none, record pq { count = left; head = ends.0; tail = ends.1 })

-- The head and the tail after an item is announced, `count` items being there with it.
abbrev pub ends_of_put : PQueue → ℕ → ℤ × ℤ
ends_of_put pq count =
    if 1 == count then (pos 0, pos 0) else (pq.head, advance pq.max_count pq.tail)

unfoldable pub pqueue_put : PQueue → ℕ → Exec (ℤ × Option Errno × PQueue)
pqueue_put pq val = if leb pq.max_count pq.count then done (minus_one, some enomem, pq) else do
  let count' = add_size pq.count 1
  let ends = ends_of_put pq count'
  assert (in_range pq.max_count ends.1)
  slots' ← store pq.slots ends.1 val
  done (pos 0, none, record pq { slots = slots'; count = count'; head = ends.0; tail = ends.1 })

-- An index past the end of the array starts again.
unfoldable pub wrapped : ℕ → ℤ → ℤ
wrapped max_count i = if leb_ℤ (to_ssize max_count) i then pos 0 else i

-- The pointers that `pqueue_dump` prints, `n` of them from index `i` on.
unfoldable pub dump_loop : List ℕ → ℕ → ℕ → ℤ → Exec (List ℕ)
dump_loop slots max_count zero i = done []
dump_loop slots max_count (suc n) i = do
  let i' = wrapped max_count i
  val ← load slots i'
  others ← dump_loop slots max_count n (suc_ℤ i')
  done (val ∷ others)

unfoldable pub pqueue_dump : PQueue → Exec (List ℕ)
pqueue_dump pq = dump_loop pq.slots pq.max_count pq.count pq.head
