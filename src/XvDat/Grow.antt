-- ===== src/XvDat/Grow.antt =====
-- The growth of the arrays of fdwatch/xvdat.c: sizes, and the marks that are kept.
use bsl45_misc_tools.Prelude.{
  ℕ, zero, suc, ◌+◌, ◌-◌, ◌*◌, ◌/◌, ◌^◌, ◌%◌, ◌≤◌, ◌<◌, ◌≡◌, refl, ap, sym, ◌∙◌, List, [], ◌∷◌,
  ◌++◌, Bool, true, false, none, some, pos, length, get_or, replicate, arith, ltb, leb, done, take,
  take_all, take-append, length-append, length-replicate, lt→ltb, Option-cases, inl, inr,
  get_or-pad, get_or-replicate, if◌then◌else◌, ltb_ℤ, to_ssize, to_ssize_small,
}
use bsl45_misc_tools.XvDat.{
  XVec, XvLst, blocks, word, xvec_reserve, xvlst_reserve, after_reserve, grow_marks, regrow,
  memchr_zero,
}
use bsl45_misc_tools.XvDat.Marks.{
  first_free, taken_count, taken_count-pad, memchr_zero-pad, memchr_zero-pad_some,
}

-- The marks of a list, its count of taken slots, the first free slot and the last one ever used.
pub record IsWellFormed (l : XvLst) (marks : List Bool) : Type 0 where
  pub has_marks : l.taken ≡ some marks
  pub sized : length marks ≡ l.vec.max_len
  pub counted : l.vec.len ≡ taken_count marks
  pub next : l.avail ≡ first_free marks
  pub within : l.last < l.vec.max_len
  pub beyond : (j : ℕ) → l.last < j → get_or marks j false ≡ false
  pub bounded : l.vec.max_len < 2 ^ 63

div_small : (a g : ℕ) → 0 < g → a / g ≤ a
div_small a g h = grind arith

round_up : (n g : ℕ) → 0 < n → 0 < g → (n ≤ (1 + (n - 1) / g) * g) × ((1 + (n - 1) / g) * g < n + g)
round_up n g hn hg = grind arith

-- A request is rounded up to whole blocks, where nothing overflows.
pub blocks_bounds :
    (new_max growblk : ℕ)
    → 0 < new_max
    → 0 < growblk
    → new_max + growblk ≤ 2 ^ 63
    → (new_max ≤ blocks new_max growblk) × (blocks new_max growblk < new_max + growblk)
unfolding blocks
blocks_bounds n g hn hg hs =
    let low : word (n + 2 ^ 64 - 1) ≡ n - 1 = omega arith in
    let few : word (1 + (n - 1) / g) ≡ 1 + (n - 1) / g = omega (arith, div_small (n - 1) g hg) in
    let bounds = round_up n g hn hg in
    let whole : word ((1 + (n - 1) / g) * g) ≡ (1 + (n - 1) / g) * g = omega (arith, bounds) in
    rw (low, few, whole) bounds

times-mod : (q g : ℕ) → 0 < g → q * g % g ≡ 0
times-mod q g h = grind arith

blocks-mod :
    (new_max growblk : ℕ)
    → 0 < new_max
    → 0 < growblk
    → new_max + growblk ≤ 2 ^ 63
    → blocks new_max growblk % growblk ≡ 0
unfolding blocks
blocks-mod n g hn hg hs =
    let low : word (n + 2 ^ 64 - 1) ≡ n - 1 = omega arith in
    let few : word (1 + (n - 1) / g) ≡ 1 + (n - 1) / g = omega (arith, div_small (n - 1) g hg) in
    let bounds = round_up n g hn hg in
    let whole : word ((1 + (n - 1) / g) * g) ≡ (1 + (n - 1) / g) * g = omega (arith, bounds) in
    rw (low, few, whole) (times-mod (1 + (n - 1) / g) g hg)

-- The old marks are kept, whatever the new memory holds, and the rest is free.
regrow_lem :
    (marks junk : List Bool) (new : ℕ)
    → length marks ≤ new
    → regrow (some marks) junk (length marks) new ≡ marks ++ replicate (new - length marks) false
unfolding regrow
regrow_lem marks junk new h =
    ap (λ l. l ++ replicate (new - length marks) false) (kept ∙ prefix marks (take _ junk))
  where
    kept :
        take (length marks) (take new (marks ++ junk))
        ≡ take (length marks) (marks ++ take (new - length (take new marks)) junk)
    kept = ap (take (length marks)) (
        take-append new marks junk
        ∙ ap (λ l. l ++ take (new - length (take new marks)) junk) (take_all new marks h))

    prefix : (xs ys : List Bool) → take (length xs) (xs ++ ys) ≡ xs
    prefix [] ys = refl
    prefix (x ∷ xs) ys = ap (λ l. x ∷ l) (prefix xs ys)

-- The list after it has grown to `new` slots.
abbrev pub grown : XvLst → List Bool → ℕ → ℕ → XvLst
grown l marks new blksz = record {
  vec = record { size = word (new * blksz); len = l.vec.len; max_len = new };
  taken = some (marks ++ replicate (new - length marks) false);
  last = l.last;
  avail = first_free (marks ++ replicate (new - length marks) false);
}

-- `avail` after the marks have grown is the first free slot again.
grown_avail :
    (l : XvLst) (marks : List Bool) (n : ℕ)
    → IsWellFormed l marks
    → (if ltb_ℤ l.avail (pos 0) then to_ssize l.vec.max_len else l.avail)
      ≡ first_free (marks ++ replicate (suc n) false)
grown_avail l marks n h = elim (Option-cases (memchr_zero marks)) [
  | inl e ↦
      rw (h.next, e, memchr_zero-pad marks n e, to_ssize_small l.vec.max_len h.bounded)
        (ap pos (omega (arith, h.sized)))
  | inr (i, e) ↦ rw (h.next, e, memchr_zero-pad_some marks (suc n) i e) (ground arith)
]

-- A list that has to grow does so, and keeps its marks.
pub xvlst_reserve-grown :
    (l : XvLst) (marks junk : List Bool) (new_max blksz growblk : ℕ)
    → IsWellFormed l marks
    → l.vec.max_len < new_max
    → 0 < growblk
    → new_max + growblk ≤ 2 ^ 63
    → xvlst_reserve true (some junk) l new_max blksz growblk
      ≡ done (pos 0, grown l marks (blocks new_max growblk) blksz)
unfolding xvlst_reserve xvec_reserve after_reserve grow_marks
xvlst_reserve-grown l marks junk n blksz g h hn hg hs =
    let bounds = blocks_bounds n g (omega arith) hg hs in
    let more : leb n l.vec.max_len ≡ false = ground arith in
    let no_less : ltb n l.vec.max_len ≡ false = ground arith in
    let wider : leb (blocks n g) l.vec.max_len ≡ false = ground (arith, bounds) in
    let some_more : blocks n g - length marks ≡ suc (blocks n g - length marks - 1) =
      omega (arith, bounds, h.sized) in
    let kept = regrow_lem marks junk (blocks n g) (omega (arith, bounds, h.sized)) in
    let moved = grown_avail l marks (blocks n g - length marks - 1) h in
    rw (more, lt→ltb 0 g hg, no_less, wider, h.has_marks) (cc (h.sized, kept, moved, some_more))

pub grown-IsWellFormed :
    (l : XvLst) (marks : List Bool) (new blksz : ℕ)
    → IsWellFormed l marks
    → l.vec.max_len ≤ new
    → new < 2 ^ 63
    → IsWellFormed (grown l marks new blksz) (marks ++ replicate (new - length marks) false)
grown-IsWellFormed l marks new blksz h hn hb = record {
  has_marks = refl;
  sized = omega (
    arith,
    length-append marks (replicate (new - length marks) false),
    length-replicate (new - length marks) false,
    h.sized,
  );
  counted = h.counted ∙ sym (taken_count-pad marks (new - length marks));
  next = refl;
  within = omega (arith, h.within);
  beyond = λ j k. get_or-pad marks (new - length marks) j false ∙ h.beyond j k;
  bounded = hb;
}

-- A list whose fields are all zero, as the callers of the functions begin.
abbrev pub zeroed : XvLst
zeroed = record {
  vec = record { size = 0; len = 0; max_len = 0 };
  taken = none;
  last = 0;
  avail = pos 0;
}

taken_count-replicate : (n : ℕ) → 0 ≡ taken_count (replicate n false)
unfolding taken_count
taken_count-replicate zero = refl
taken_count-replicate (suc n) = taken_count-replicate n

free_first : (n : ℕ) → 0 < n → pos 0 ≡ first_free (replicate n false)
unfolding memchr_zero
free_first zero h = absurd (omega arith)
free_first (suc n) h = refl

-- The first `xvlst_reserve`, of a list whose fields are all zero, makes room for what is asked for,
-- where memory is served and no size overflows: the list is well formed, and all slots are free.
xvlst_reserve-zeroed :
    (junk : List Bool) (new_max blksz growblk : ℕ)
    → 0 < new_max
    → 0 < growblk
    → new_max + growblk ≤ 2 ^ 63
    → (l : XvLst) × (xvlst_reserve true (some junk) zeroed new_max blksz growblk ≡ done (pos 0, l))
      × IsWellFormed l (replicate l.vec.max_len false)
      × (new_max ≤ l.vec.max_len)
unfolding xvlst_reserve xvec_reserve after_reserve grow_marks regrow
xvlst_reserve-zeroed junk n blksz g hn hg hs =
    let bounds = blocks_bounds n g hn hg hs in
    let more : leb n 0 ≡ false = ground arith in
    let no_less : ltb n 0 ≡ false = ground arith in
    let wider : leb (blocks n g) 0 ≡ false = ground (arith, bounds) in
    let all_new : blocks n g - 0 ≡ blocks n g = omega arith in
    (
      record {
        vec = record { size = word (blocks n g * blksz); len = 0; max_len = blocks n g };
        taken = some (replicate (blocks n g) false);
        last = 0;
        avail = pos 0;
      },
      rw (more, lt→ltb 0 g hg, no_less, wider, all_new) refl,
      record {
        has_marks = refl;
        sized = length-replicate (blocks n g) false;
        counted = taken_count-replicate (blocks n g);
        next = free_first (blocks n g) (omega (arith, bounds));
        within = omega (arith, bounds);
        beyond = λ j k. get_or-replicate (blocks n g) j false;
        bounded = omega (arith, bounds);
      },
      bounds.0,
    )

-- `xvec_reserve`, where the array has to grow, memory is served and no size overflows, makes room for
-- what is asked for and for less than a block more, in whole blocks, and keeps the length.
xvec_reserve_lem :
    (v : XVec) (new_max blksz growblk : ℕ)
    → v.max_len ≤ new_max
    → 0 < new_max
    → 0 < growblk
    → new_max + growblk ≤ 2 ^ 63
    → (new : ℕ) × (xvec_reserve true v new_max blksz growblk
        ≡ done (pos 0, record { size = word (new * blksz); len = v.len; max_len = new }))
      × (new_max ≤ new)
      × (new < new_max + growblk)
      × (new % growblk ≡ 0)
unfolding xvec_reserve
xvec_reserve_lem v n blksz g hv hn hg hs =
    let bounds = blocks_bounds n g hn hg hs in
    let no_less : ltb n v.max_len ≡ false = ground arith in
    (blocks n g, rw (lt→ltb 0 g hg, no_less) refl, bounds.0, bounds.1, blocks-mod n g hn hg hs)
