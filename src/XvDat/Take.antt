-- ===== src/XvDat/Take.antt =====
-- How fdwatch/xvdat.c takes the first free slot, and finds the next one.
use bsl45_misc_tools.Prelude.{
  ℕ, zero, suc, ◌+◌, ◌-◌, ◌≤◌, ◌<◌, ◌≡◌, refl, ap, ◌∙◌, List, [], ◌∷◌, Bool, true, false, some, pos,
  length, get_elem?, get_or, set, drop, arith, ltb, leb, ◌==◌, done, take_all, length-set,
  length-drop, Bool-cases, inl, inr, get_or-set, get_elem?-get_or, drop_all, if◌then◌else◌,
}
use bsl45_misc_tools.XvDat.{XvLst, word, memchr_zero, found_at, next_avail, take_slot}
use bsl45_misc_tools.XvDat.Marks.{
  first_free, taken_count, memchr_zero-found, memchr_zero-take, memchr_zero-drop, taken_count-take,
  taken_count-le-length,
}
use bsl45_misc_tools.XvDat.Grow.{IsWellFormed}

drop-set :
    (marks : List Bool) (i : ℕ) (v : Bool) → drop (suc i) (set marks i v) ≡ drop (suc i) marks
drop-set [] i v = refl
drop-set (x ∷ marks) zero v = refl
drop-set (x ∷ marks) (suc i) v = drop-set marks i v

-- `last`, once slot `i` is taken.
abbrev pub new_last : ℕ → ℕ → ℕ
new_last last i = if ltb last i then i else last

module _ (marks : List Bool) (max_len last i : ℕ) (sized : length marks ≡ max_len)
    (within : last < max_len) (beyond : (j : ℕ) → last < j → get_or marks j false ≡ false)
    (below : i < max_len) where
  -- What the code reads beside slot `i`.
  beside :
      suc i < max_len → get_elem? (set marks i true) (suc i) ≡ some (get_or marks (suc i) false)
  beside h =
      get_elem?-get_or (set marks i true) (suc i) false (omega (arith, length-set marks i true))
      ∙ ap some (get_or-set marks i (suc i) true false (omega arith) ∙ ground arith)

  -- A free slot right after `i` is the one that is found.
  found_beside :
      suc i < max_len
      → get_or marks (suc i) false ≡ false
      → pos (suc i) ≡ found_at (suc i) (memchr_zero (drop (suc i) marks))
  found_beside h free =
      rw (memchr_zero-drop marks (suc i) (omega arith) free) (ap pos (omega arith))

  -- In each of its branches the code finds the first free slot after `i`.
  next_avail_lem :
      next_avail (set marks i true) max_len (new_last last i) i
      ≡ done (found_at (suc i) (memchr_zero (drop (suc i) marks)))
  unfolding next_avail memchr_zero
  next_avail_lem = elim (Bool-cases (i == new_last last i)) [
    | inl top ↦ elim (Bool-cases (leb max_len (suc i))) [
      | inl full ↦ rw (top, one, full, drop_all (suc i) marks (ground arith)) refl
      | inr room ↦
          let free = beyond (suc i) (ground arith) in
          rw (top, one, room, beside (ground arith), free)
            (ap done (found_beside (ground arith) free))
    ]
    | inr inner ↦
        let h : suc i < max_len = ground arith in
        elim (Bool-cases (get_or marks (suc i) false)) [
          | inl busy ↦
              let rest =
                take_all (max_len - i - 1) (drop (suc i) marks)
                  (omega (arith, length-drop (suc i) marks)) in
              rw (inner, one, beside h, busy, drop-set marks i true, rest) refl
          | inr free ↦ rw (inner, one, beside h, free) (ap done (found_beside h free))
        ]
  ]
    where
      one : i + 1 ≡ suc i
      one = omega arith

-- The list after slot `i` was taken.
abbrev pub with_taken : XvLst → List Bool → ℕ → XvLst
with_taken l marks i = record {
  vec = record l.vec { len = word (l.vec.len + 1) };
  taken = some (set marks i true);
  last = new_last l.last i;
  avail = first_free (set marks i true);
}

module _ (l : XvLst) (marks : List Bool) (i : ℕ) (h : IsWellFormed l marks)
    (found : memchr_zero marks ≡ some i) where
  pub free_slot_here : (i < length marks) × (get_or marks i false ≡ false)
  free_slot_here = let f = memchr_zero-found marks i found in (f.0, f.1)

  pub take_slot_lem : take_slot (some marks) l i ≡ done (pos i, with_taken l marks i)
  unfolding take_slot
  take_slot_lem =
      let here = free_slot_here in
      let in_range : leb (length marks) i ≡ false = ground (arith, here) in
      let next =
        next_avail_lem marks l.vec.max_len l.last i h.sized h.within h.beyond
          (omega (arith, here.0, h.sized)) in
      rw (in_range, next, memchr_zero-take 0 marks i found) (cc (zero_plus))
    where
      zero_plus : 0 + suc i ≡ suc i
      zero_plus = omega arith

  -- One more slot is taken than before, so that the count does not pass the room.
  pub room_left : suc (taken_count marks) ≤ length marks
  room_left =
      let here = free_slot_here in
      omega (
        arith,
        taken_count-take marks i here.0 here.1,
        taken_count-le-length (set marks i true),
        length-set marks i true,
      )

  pub with_taken-IsWellFormed : IsWellFormed (with_taken l marks i) (set marks i true)
  with_taken-IsWellFormed =
      let here = free_slot_here in
      let counted = taken_count-take marks i here.0 here.1 in
      record {
        has_marks = refl;
        sized = length-set marks i true ∙ h.sized;
        counted = omega (arith, h.counted, counted, room_left, h.sized, h.bounded);
        next = refl;
        within = ground (arith, h.within, h.sized, here);
        beyond = λ j k. ground (arith, get_or-set marks i j true false, here, h.beyond j);
        bounded = h.bounded;
      }
