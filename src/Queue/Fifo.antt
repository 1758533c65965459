-- ===== src/Queue/Fifo.antt =====
-- The queue of queue/queue.c against the list of the items that it holds, oldest first.
use bsl45_misc_tools.Prelude.{
  ℕ, suc, ◌+◌, ◌^◌, ◌≤◌, ◌<◌, ◌≡◌, refl, ◌∙◌, subst, ap, arith, List, [], ◌∷◌, ◌++◌, true, none,
  some, leb, if◌then◌else◌, ℤ, pos, done, length, get_elem?, set, length-set, length-append,
}
use bsl45_misc_tools.Queue.{
  PQueue, enoent, enomem, minus_one, bad_pointer, advance, in_range, load, store, pqueue_get,
  pqueue_put, wrapped, dump_loop, pqueue_dump,
}
use bsl45_misc_tools.Queue.Walk.{next, walk, walk_lem, next-walk, Lies, Lies-set}

-- Where the items lie, between the two indices.
abbrev pub Placed : List ℕ → ℕ → ℤ → ℤ → List ℕ → Type 0
Placed slots max head tail [] = (head ≡ minus_one) × (tail ≡ minus_one)
Placed slots max head tail (x ∷ xs) =
    (i : ℕ) × (head ≡ pos i)
    × (tail ≡ pos (walk max i (length xs)))
    × (i < max)
    × Lies slots max i (x ∷ xs)

-- The structure is well formed and holds `xs`.
pub record Holds (pq : PQueue) (xs : List ℕ) : Type 0 where
  pub small : pq.max_count < 2 ^ 63
  pub sized : length pq.slots ≡ pq.max_count
  pub counted : pq.count ≡ length xs
  pub fits : length xs ≤ pq.max_count
  pub placed : Placed pq.slots pq.max_count pq.head pq.tail xs

advance_lem : (max i : ℕ) → max < 2 ^ 63 → advance max (pos i) ≡ pos (next max i)
unfolding advance
advance_lem max i h = ground arith

in_range_lem : (max i : ℕ) → max < 2 ^ 63 → i < max → in_range max (pos i) ≡ true
unfolding in_range
in_range_lem max i h k = ground arith

load_lem : (slots : List ℕ) (i x : ℕ) → get_elem? slots i ≡ some x → load slots (pos i) ≡ done x
unfolding load
load_lem slots i x e = rw e

store_lem :
    (slots : List ℕ) (i x : ℕ) → i < length slots → store slots (pos i) x ≡ done (set slots i x)
unfolding store
store_lem slots i x h = ground arith

walk-lt : (max i n : ℕ) → i < max → n < max → walk max i n < max
walk-lt max i n h k = ground (arith, walk_lem max i n h k)

-- `pqueue_get` on a queue that holds `x` first returns `x`, leaves `errno` alone, and leaves the
-- rest; no assertion fails and every access is inside the array.
pub pqueue_get_lem :
    (pq : PQueue) (x : ℕ) (xs : List ℕ)
    → Holds pq (x ∷ xs)
    → (pq' : PQueue) × (pqueue_get pq ≡ done (x, none, pq'))
      × Holds pq' xs
      × (pq'.max_count ≡ pq.max_count)
unfolding pqueue_get
pqueue_get_lem pq x [] v =
    let (i, eh, et, hi, s) = v.placed in
    (
      record pq { count = 0; head = minus_one; tail = minus_one },
      rw (v.counted, eh, in_range_lem pq.max_count i v.small hi, load_lem pq.slots i x s.0),
      record {
        small = v.small;
        sized = v.sized;
        counted = refl;
        fits = omega arith;
        placed = (refl, refl);
      },
      refl,
    )
pqueue_get_lem pq x (y ∷ xs) v =
    let (i, eh, et, hi, s) = v.placed in
    (
      record pq { count = suc (length xs); head = pos (next pq.max_count i) },
      rw (v.counted, eh, in_range_lem pq.max_count i v.small hi, load_lem pq.slots i x s.0)
          (ground (arith, advance_lem pq.max_count i v.small)),
      record {
        small = v.small;
        sized = v.sized;
        counted = refl;
        fits = omega (arith, v.fits);
        placed = (next pq.max_count i, refl, et, ground arith, s.1);
      },
      refl,
    )

-- `pqueue_put` on a queue with room appends the item.
pub pqueue_put_lem :
    (pq : PQueue) (v : ℕ) (xs : List ℕ)
    → Holds pq xs
    → length xs < pq.max_count
    → (pq' : PQueue) × (pqueue_put pq v ≡ done (pos 0, none, pq'))
      × Holds pq' (xs ++ (v ∷ []))
      × (pq'.max_count ≡ pq.max_count)
unfolding pqueue_put
pqueue_put_lem pq v [] h room = (
  record pq { slots = set pq.slots 0 v; count = 1; head = pos 0; tail = pos 0 },
  ground (arith, h.counted, in_range_lem pq.max_count 0 h.small room, store_lem pq.slots 0 v),
  record {
    small = h.small;
    sized = length-set pq.slots 0 v ∙ h.sized;
    counted = refl;
    fits = room;
    placed =
        (0, refl, refl, room, Lies-set pq.slots pq.max_count 0 0 v [] h.sized room room refl tt);
  },
  refl,
)
pqueue_put_lem pq v (x ∷ xs) h room =
    let (i, eh, et, hi, s) = h.placed in
    let j = walk pq.max_count i (suc (length xs)) in
    let longer : suc (length xs) ≡ length (xs ++ (v ∷ [])) =
      omega (arith, length-append xs (v ∷ [])) in
    (
      record pq { slots = set pq.slots j v; count = suc (suc (length xs)); tail = pos j },
      rw
          (
            h.counted,
            eh,
            et,
            advance_lem pq.max_count (walk pq.max_count i (length xs)) h.small,
            next-walk pq.max_count i (length xs),
          )
          (ground (
            arith,
            in_range_lem pq.max_count j h.small,
            store_lem pq.slots j v,
            walk-lt pq.max_count i (suc (length xs)) hi room,
          )),
      record {
        small = h.small;
        sized = length-set pq.slots j v ∙ h.sized;
        counted = omega (arith, length-append xs (v ∷ []));
        fits = omega (arith, length-append xs (v ∷ []), room);
        placed = (
          i,
          eh,
          ap (λ n. pos (walk pq.max_count i n)) longer,
          hi,
          Lies-set pq.slots pq.max_count i j v (x ∷ xs) h.sized hi room refl s,
        );
      },
      refl,
    )

-- An empty queue reports ENOENT, a full one ENOMEM, and neither changes.
pub pqueue_get-empty :
    (pq : PQueue) → Holds pq [] → pqueue_get pq ≡ done (bad_pointer, some enoent, pq)
unfolding pqueue_get
pqueue_get-empty pq h = rw h.counted

pub pqueue_put-full :
    (pq : PQueue) (v : ℕ) (xs : List ℕ)
    → Holds pq xs
    → length xs ≡ pq.max_count
    → pqueue_put pq v ≡ done (minus_one, some enomem, pq)
unfolding pqueue_put
pqueue_put-full pq v xs h full = ground (arith, h.counted)

wrapped_lem : (max i : ℕ) → max < 2 ^ 63 → wrapped max (pos i) ≡ pos (if leb max i then 0 else i)
unfolding wrapped
wrapped_lem max i h = ground arith

dump_loop_lem :
    (slots : List ℕ) (max k : ℕ) (xs : List ℕ)
    → max < 2 ^ 63
    → 0 < max
    → k ≤ max
    → Lies slots max (if leb max k then 0 else k) xs
    → dump_loop slots max (length xs) (pos k) ≡ done xs
unfolding dump_loop
dump_loop_lem slots max k [] hm hp hk s = refl
dump_loop_lem slots max k (x ∷ xs) hm hp hk s =
    let i = if leb max k then 0 else k in
    rw (
      wrapped_lem max k hm,
      load_lem slots i x s.0,
      dump_loop_lem slots max (i + 1) xs hm hp (ground arith) s.1,
    )

inside : (max i : ℕ) → i < max → i ≡ (if leb max i then 0 else i)
inside max i h = ground arith

-- `pqueue_dump` prints the items in the order in which they would be taken.
pub pqueue_dump_lem : (pq : PQueue) (xs : List ℕ) → Holds pq xs → pqueue_dump pq ≡ done xs
unfolding pqueue_dump dump_loop
pqueue_dump_lem pq [] h = rw (h.counted, dump_loop)
pqueue_dump_lem pq (x ∷ xs) h =
    let (i, eh, et, hi, s) = h.placed in
    rw (h.counted, eh)
      (dump_loop_lem pq.slots pq.max_count i (x ∷ xs) h.small (omega arith) (omega arith)
        (subst (λ k. Lies pq.slots pq.max_count k (x ∷ xs)) (inside pq.max_count i hi) s))
