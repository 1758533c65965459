-- ===== src/XvDat/Add.antt =====
-- `xvlst_add` of fdwatch/xvdat.c takes the least free slot, and grows the list if there is none.
use bsl45_misc_tools.Prelude.{
  ℕ, suc, ◌+◌, ◌-◌, ◌^◌, ◌≤◌, ◌<◌, ◌≡◌, refl, ap, ◌∙◌, List, ◌++◌, Bool, true, false, Option, none,
  some, pos, negsuc, length, get_or, set, replicate, arith, ltb, leb, ◌==◌, done, lt→ltb,
  Option-cases, inl, inr, Exec, ℤ, get_or-pad, get_or-set, get_or-past, if◌then◌else◌, fault, ◌*◌,
  ltb_ℤ, to_ssize, to_ssize_small,
}
use bsl45_misc_tools.XvDat.{
  XvLst, blocks, word, xvlst_reserve, xvlst_expand, xvlst_add, xvlst_del, memchr_zero, found_at,
  take_slot, xvec_reserve, after_reserve, grow_marks, enomem, take_avail, mark,
}
use bsl45_misc_tools.XvDat.Marks.{
  memchr_zero-found, memchr_zero-none, memchr_zero-pad, taken_count-full,
}
use bsl45_misc_tools.XvDat.Grow.{
  IsWellFormed, blocks_bounds, grown, xvlst_reserve-grown, grown-IsWellFormed,
}
use bsl45_misc_tools.XvDat.Take.{
  with_taken, take_slot_lem, room_left, free_slot_here, with_taken-IsWellFormed,
}

-- What `xvlst_add` is to do: the least free slot is taken, and no other changes.
abbrev pub TakesFirst : List Bool → Exec (ℤ × XvLst) → Type 0
TakesFirst marks r =
    (i : ℕ) × (l : XvLst) × (after : List Bool) × (r ≡ done (pos i, l))
    × IsWellFormed l after
    × ((j : ℕ) → j < i → get_or marks j false ≡ true)
    × (get_or marks i false ≡ false)
    × ((j : ℕ) → get_or after j false ≡ (if i == j then true else get_or marks j false))

-- No memory is asked for where the list has room.
expand_here :
    (got : Bool) (junk : Option (List Bool)) (l : XvLst) (blksz growblk : ℕ)
    → l.vec.len < l.vec.max_len
    → l.vec.max_len < 2 ^ 63
    → 0 < blksz
    → 0 < growblk
    → xvlst_expand got junk l 1 blksz growblk ≡ done (pos 0, l)
unfolding xvlst_expand xvlst_reserve
expand_here got junk l b g hl hm hb hg =
    let room : leb (word (l.vec.len + 1)) l.vec.max_len ≡ true = ground arith in
    rw (lt→ltb 0 b hb, lt→ltb 0 g hg, room) refl

-- `xvlst_add` by its parts.
add_parts :
    (got : Bool) (junk : Option (List Bool)) (l l' l'' : XvLst) (marks : List Bool)
    (i blksz growblk : ℕ)
    → ltb_ℤ l.avail (to_ssize l.vec.max_len) ≡ true
    → xvlst_expand got junk l 1 blksz growblk ≡ done (pos 0, l')
    → l'.avail ≡ pos i
    → l'.taken ≡ some marks
    → take_slot (some marks) l' i ≡ done (pos i, l'')
    → xvlst_add got junk l blksz growblk ≡ done (pos i, l'')
unfolding xvlst_add
add_parts got junk l l' l'' marks i b g below grows avail has takes =
    rw (below, grows) (ap (λ a. take_avail a l') avail ∙ ap (λ t. take_slot t l' i) has ∙ takes)

add_here :
    (got : Bool) (junk : Option (List Bool)) (l : XvLst) (marks : List Bool) (i blksz growblk : ℕ)
    → IsWellFormed l marks
    → memchr_zero marks ≡ some i
    → 0 < blksz
    → 0 < growblk
    → xvlst_add got junk l blksz growblk ≡ done (pos i, with_taken l marks i)
add_here got junk l marks i b g h found hb hg =
    let here = free_slot_here l marks i h found in
    let avail : l.avail ≡ pos i = h.next ∙ ap (found_at 0) found ∙ ap pos (omega arith) in
    let below : ltb_ℤ (pos i) (pos l.vec.max_len) ≡ true = ground (arith, here, h.sized) in
    add_parts got junk l l (with_taken l marks i) marks i b g
      (ap (λ a. ltb_ℤ a (to_ssize l.vec.max_len)) avail
        ∙ ap (ltb_ℤ (pos i)) (to_ssize_small l.vec.max_len h.bounded)
        ∙ below)
      (expand_here got junk l b g (omega (arith, h.counted, room_left l marks i h found, h.sized))
        h.bounded hb hg)
      avail h.has_marks (take_slot_lem l marks i h found)

module _ (l : XvLst) (marks : List Bool) (blksz growblk : ℕ) (h : IsWellFormed l marks)
    (full : memchr_zero marks ≡ none) (hb : 0 < blksz) (hg : 0 < growblk) where
  len_full : word (l.vec.len + 1) ≡ l.vec.max_len + 1
  len_full = omega (arith, h.counted, taken_count-full marks full, h.sized, h.bounded)

  -- The test of `avail` when no slot is free.
  below_full : ltb_ℤ l.avail (to_ssize l.vec.max_len) ≡ true
  below_full =
      ap (λ a. ltb_ℤ a (to_ssize l.vec.max_len)) (h.next ∙ ap (found_at 0) full)
      ∙ ap (ltb_ℤ (negsuc 0)) (to_ssize_small l.vec.max_len h.bounded)
      ∙ ground arith

  module _ (junk : List Bool) (hs : l.vec.max_len + 1 + growblk ≤ 2 ^ 63) where
    abbrev more : ℕ
    more = blocks (l.vec.max_len + 1) growblk

    abbrev grown_list : XvLst
    grown_list = grown l marks more blksz

    abbrev grown_marks : List Bool
    grown_marks = marks ++ replicate (more - length marks) false

    more_bounds : (l.vec.max_len + 1 ≤ more) × (more < l.vec.max_len + 1 + growblk)
    more_bounds = blocks_bounds (l.vec.max_len + 1) growblk (omega arith) hg hs

    grown_list-IsWellFormed : IsWellFormed grown_list grown_marks
    grown_list-IsWellFormed =
        grown-IsWellFormed l marks more blksz h (omega (arith, more_bounds))
          (omega (arith, more_bounds))

    -- The first free slot is the first new one.
    found_new : memchr_zero grown_marks ≡ some (length marks)
    found_new =
        let some_more : more - length marks ≡ suc (more - length marks - 1) =
          omega (arith, more_bounds, h.sized) in
        rw some_more (memchr_zero-pad marks (more - length marks - 1) full)

    expand_grown : xvlst_expand true (some junk) l 1 blksz growblk ≡ done (pos 0, grown_list)
    unfolding xvlst_expand
    expand_grown =
        rw
          (
            lt→ltb 0 blksz hb,
            lt→ltb 0 growblk hg,
            len_full,
            xvlst_reserve-grown l marks junk (l.vec.max_len + 1) blksz growblk h (omega arith) hg
                hs,
          )
          refl

    add_grown :
        xvlst_add true (some junk) l blksz growblk
        ≡ done (pos (length marks), with_taken grown_list grown_marks (length marks))
    add_grown =
        let avail : grown_list.avail ≡ pos (length marks) =
          ap (found_at 0) found_new ∙ ap pos (omega arith) in
        add_parts true (some junk) l grown_list (with_taken grown_list grown_marks (length marks))
          grown_marks (length marks) blksz growblk below_full expand_grown avail refl
          (take_slot_lem grown_list grown_marks (length marks) grown_list-IsWellFormed found_new)

  -- Where no slot is free and no memory is served for the array, `xvlst_add` says so, and the list is
  -- as before.
  xvlst_add-full :
      (junk : Option (List Bool))
      → xvlst_add false junk l blksz growblk ≡ done (negsuc (enomem - 1), l)
  unfolding xvlst_add xvlst_expand xvlst_reserve xvec_reserve after_reserve
  xvlst_add-full junk =
      let more : leb (l.vec.max_len + 1) l.vec.max_len ≡ false = ground arith in
      let no_less : ltb (l.vec.max_len + 1) l.vec.max_len ≡ false = ground arith in
      rw (below_full, lt→ltb 0 blksz hb, lt→ltb 0 growblk hg, len_full, more, no_less) refl

  -- Where the array has grown and no memory is served for the marks, `xvlst_add` says that there is no
  -- memory, but the marks are lost: to give back any slot then reads through a null pointer.
  xvlst_add-lost :
      l.vec.max_len + 1 + growblk ≤ 2 ^ 63
      → (after : XvLst) × (xvlst_add true none l blksz growblk ≡ done (negsuc (enomem - 1), after))
        × ((k : ℕ) → k ≤ l.last → xvlst_del after k ≡ fault)
  unfolding xvlst_add xvlst_expand xvlst_reserve xvec_reserve after_reserve grow_marks xvlst_del
      mark
  xvlst_add-lost hs =
      let bounds = blocks_bounds (l.vec.max_len + 1) growblk (omega arith) hg hs in
      let more : leb (l.vec.max_len + 1) l.vec.max_len ≡ false = ground arith in
      let no_less : ltb (l.vec.max_len + 1) l.vec.max_len ≡ false = ground arith in
      let wider : leb (blocks (l.vec.max_len + 1) growblk) l.vec.max_len ≡ false =
        ground (arith, bounds) in
      (
        record {
          vec = record {
            size = word (blocks (l.vec.max_len + 1) growblk * blksz);
            len = l.vec.len;
            max_len = blocks (l.vec.max_len + 1) growblk;
          };
          taken = none;
          last = l.last;
          avail = l.avail;
        },
        rw (below_full, lt→ltb 0 blksz hb, lt→ltb 0 growblk hg, len_full, more, no_less, wider)
            refl,
        λ k hk. let known : ltb l.last k ≡ false = ground arith in rw known refl,
      )

-- What `with_taken` makes of the marks.
taken_marks :
    (marks : List Bool) (i j : ℕ)
    → i < length marks
    → get_or (set marks i true) j false ≡ (if i == j then true else get_or marks j false)
taken_marks marks i j h = get_or-set marks i j true false h

-- `xvlst_add`, on a well-formed list, with memory served and no size overflowing: it returns the
-- least slot that is free, marks it as taken and no other, and leaves the list well formed.
pub xvlst_add_lem :
    (junk : List Bool) (l : XvLst) (marks : List Bool) (blksz growblk : ℕ)
    → IsWellFormed l marks
    → 0 < blksz
    → 0 < growblk
    → l.vec.max_len + 1 + growblk ≤ 2 ^ 63
    → TakesFirst marks (xvlst_add true (some junk) l blksz growblk)
xvlst_add_lem junk l marks b g h hb hg hs = elim (Option-cases (memchr_zero marks)) [
  | inl full ↦
      let wf = grown_list-IsWellFormed l marks b g h full hb hg junk hs in
      let found = found_new l marks b g h full hb hg junk hs in
      let L = grown_list l marks b g h full hb hg junk hs in
      let M = grown_marks l marks b g h full hb hg junk hs in
      let here = free_slot_here L M (length marks) wf found in
      (
        length marks,
        with_taken L M (length marks),
        set M (length marks) true,
        add_grown l marks b g h full hb hg junk hs,
        with_taken-IsWellFormed L M (length marks) wf found,
        λ j k. memchr_zero-none marks j full k,
        get_or-past marks (length marks) false (omega arith),
        λ j.
            taken_marks M (length marks) j here.0
            ∙ ap (λ b. if length marks == j then true else b)
                (get_or-pad marks (blocks (l.vec.max_len + 1) g - length marks) j false),
      )
  | inr (i, found) ↦
      let here = memchr_zero-found marks i found in
      (
        i,
        with_taken l marks i,
        set marks i true,
        add_here true (some junk) l marks i b g h found hb hg,
        with_taken-IsWellFormed l marks i h found,
        here.2,
        here.1,
        λ j. taken_marks marks i j here.0,
      )
]
