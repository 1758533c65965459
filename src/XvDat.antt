-- ===== src/XvDat.antt =====
-- fdwatch/xvdat.c and fdwatch/xvdat.h: an array that grows by blocks, and a list of reusable slots
-- on top of it. What the slots hold is the caller's; the model keeps the sizes and the marks.
mod Marks
pub mod Grow
mod Take
pub mod Add
pub mod Del
mod Tests
use bsl45_misc_tools.Prelude.{
  ℕ, zero, suc, ◌+◌, ◌-◌, ◌*◌, ◌/◌, ◌^◌, ◌%◌, List, [], ◌∷◌, ◌++◌, Bool, true, false, not, ◌&&◌,
  ◌||◌, Option, none, some, ltb, leb, ◌==◌, if◌then◌else◌, ℤ, pos, negsuc, ltb_ℤ, leb_ℤ, to_ssize,
  Exec, done, fault, ◌>>=◌, ◌>>◌, assert, access, length, get_elem?, set, take, drop, replicate,
}

-- `struct xvec`: `size` is that of the block that `data` points to, in bytes.
pub record XVec : Type 0 where
  pub size : ℕ
  pub len : ℕ
  pub max_len : ℕ

-- `struct xvlst`, which begins as a `struct xvec` does. `taken` is null or points to the marks.
pub record XvLst : Type 0 where
  pub vec : XVec
  pub taken : Option (List Bool)
  pub last : ℕ
  pub avail : ℤ

-- `size_t` arithmetic.
abbrev pub word : ℕ → ℕ
word n = n % 2 ^ 64

abbrev pub minus_one : ℤ
minus_one = negsuc 0

-- `(1 + (new_max - 1) / growblk) * growblk`.
unfoldable pub blocks : ℕ → ℕ → ℕ
blocks new_max growblk = word (word (1 + word (new_max + 2 ^ 64 - 1) / growblk) * growblk)

-- `got` says whether `realloc` serves the request.
unfoldable pub xvec_reserve : Bool → XVec → ℕ → ℕ → ℕ → Exec (ℤ × XVec)
xvec_reserve got v new_max blksz growblk = do
  assert (ltb 0 growblk)
  let nblk = blocks new_max growblk
  if ltb new_max v.max_len
      then done (pos 0, v)
      else if got
      then done (pos 0, record { size = word (nblk * blksz); len = v.len; max_len = nblk })
      else done (minus_one, v)

unfoldable pub xvec_expand : Bool → XVec → ℕ → ℕ → ℕ → Exec (ℤ × XVec)
unfolding xvec_reserve
xvec_expand got v plus blksz growblk = do
  assert (ltb 0 plus && ltb 0 blksz && ltb 0 growblk)
  xvec_reserve got v (word (v.len + plus)) blksz growblk

-- What `realloc` and `memset` make of the marks: the block of `new` bytes begins as the old one does,
-- and has `junk` after it; all from `old` on is cleared.
unfoldable pub regrow : Option (List Bool) → List Bool → ℕ → ℕ → List Bool
regrow none junk old new = take old (take new junk) ++ replicate (new - old) false
regrow (some marks) junk old new =
    take old (take new (marks ++ junk)) ++ replicate (new - old) false

-- The marks after the array has grown: `none` is a `realloc` that fails. The assignment forgets the
-- old marks then.
unfoldable pub grow_marks : Option (List Bool) → XvLst → XVec → ℤ × XvLst
grow_marks none l vec =
    (minus_one, record { vec = vec; taken = none; last = l.last; avail = l.avail })
grow_marks (some junk) l vec = (
  pos 0,
  record {
    vec = vec;
    taken = some (regrow l.taken junk l.vec.max_len vec.max_len);
    last = l.last;
    avail = if ltb_ℤ l.avail (pos 0) then to_ssize l.vec.max_len else l.avail;
  },
)

-- After `xvec_reserve`.
unfoldable pub after_reserve : Option (List Bool) → XvLst → ℤ × XVec → ℤ × XvLst
after_reserve junk l (negsuc n, vec) = (negsuc n, record l { vec = vec })
after_reserve junk l (pos (suc n), vec) = (pos (suc n), record l { vec = vec })
after_reserve junk l (pos zero, vec) =
    if leb vec.max_len l.vec.max_len then (pos 0, record l { vec = vec }) else grow_marks junk l vec

-- `got` and `junk` are what the two calls of `realloc` come to.
unfoldable pub xvlst_reserve : Bool → Option (List Bool) → XvLst → ℕ → ℕ → ℕ → Exec (ℤ × XvLst)
xvlst_reserve got junk l new_max blksz growblk =
    if leb new_max l.vec.max_len
    then done (pos 0, l)
    else do r ← xvec_reserve got l.vec new_max blksz growblk; done (after_reserve junk l r)

unfoldable pub xvlst_expand : Bool → Option (List Bool) → XvLst → ℕ → ℕ → ℕ → Exec (ℤ × XvLst)
xvlst_expand got junk l plus blksz growblk = do
  assert (ltb 0 plus && ltb 0 blksz && ltb 0 growblk)
  xvlst_reserve got junk l (word (l.vec.len + plus)) blksz growblk

-- The index in a list, of what is found in its tail.
abbrev pub or_later : Option ℕ → Option ℕ
or_later none = none
or_later (some i) = some (suc i)

-- `memchr` for a zero byte, as an index.
unfoldable pub memchr_zero : List Bool → Option ℕ
memchr_zero [] = none
memchr_zero (false ∷ marks) = some 0
memchr_zero (true ∷ marks) = or_later (memchr_zero marks)

abbrev pub found_at : ℕ → Option ℕ → ℤ
found_at start none = minus_one
found_at start (some i) = pos (start + i)

-- `taken[i]`; a null pointer is a fault.
unfoldable pub mark : Option (List Bool) → ℕ → Exec Bool
mark none i = fault
mark (some marks) i = access (get_elem? marks i)

-- The next free index, after `i` was taken.
unfoldable pub next_avail : List Bool → ℕ → ℕ → ℕ → Exec ℤ
next_avail marks max_len last i =
    if i == last
    then (if leb max_len (i + 1)
        then done minus_one
        else do m ← access (get_elem? marks (i + 1)); assert (not m); done (pos (i + 1)))
    else do
      m ← access (get_elem? marks (i + 1))
      done (
          if m
          then found_at (i + 1) (memchr_zero (take (max_len - i - 1) (drop (i + 1) marks)))
          else pos (i + 1))

-- Slot `i` is taken.
unfoldable pub take_slot : Option (List Bool) → XvLst → ℕ → Exec (ℤ × XvLst)
take_slot none l i = fault
take_slot (some marks) l i = if leb (length marks) i then fault else do
  let marks' = set marks i true
  let last' = if ltb l.last i then i else l.last
  a ← next_avail marks' l.vec.max_len last' i
  done (
    pos i,
    record {
      vec = record l.vec { len = word (l.vec.len + 1) };
      taken = some marks';
      last = last';
      avail = a;
    },
  )

abbrev pub take_avail : ℤ → XvLst → Exec (ℤ × XvLst)
take_avail (negsuc n) l = done (minus_one, l)
take_avail (pos i) l = take_slot l.taken l i

-- The values of `<errno.h>` on Linux.
abbrev pub enomem : ℕ
enomem = 12

abbrev pub erange : ℕ
erange = 34

abbrev pub ealready : ℕ
ealready = 114

abbrev pub after_expand : ℤ × XvLst → Exec (ℤ × XvLst)
after_expand (pos zero, l) = take_avail l.avail l
after_expand (pos (suc n), l) = done (negsuc (enomem - 1), l)
after_expand (negsuc n, l) = done (negsuc (enomem - 1), l)

unfoldable pub xvlst_add : Bool → Option (List Bool) → XvLst → ℕ → ℕ → Exec (ℤ × XvLst)
xvlst_add got junk l blksz growblk = do
  assert (ltb_ℤ l.avail (to_ssize l.vec.max_len))
  r ← xvlst_expand got junk l 1 blksz growblk
  after_expand r

-- Slot `index`, which is taken, is given back.
unfoldable pub free_slot : Option (List Bool) → XvLst → ℕ → Exec (ℤ × XvLst)
free_slot none l index = fault
free_slot (some marks) l index = do
  assert (ltb 0 l.vec.len)
  done (
    pos 0,
    record {
      vec = record l.vec { len = l.vec.len - 1 };
      taken = some (set marks index false);
      last = l.last;
      avail = if ltb_ℤ l.avail (pos 0) || ltb_ℤ (pos index) l.avail then pos index else l.avail;
    },
  )

unfoldable pub xvlst_del : XvLst → ℕ → Exec (ℤ × XvLst)
xvlst_del l index =
    if ltb l.last index
    then done (pos erange, l)
    else do m ← mark l.taken index; if m then free_slot l.taken l index else done (pos ealready, l)
