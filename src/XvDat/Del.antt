-- ===== src/XvDat/Del.antt =====
-- `xvlst_del` of fdwatch/xvdat.c gives back a slot that is taken, and refuses any other.
use bsl45_misc_tools.Prelude.{
  ℕ, suc, ◌+◌, ◌-◌, ◌^◌, ◌≤◌, ◌<◌, ◌≡◌, refl, ap, sym, ◌∙◌, List, Bool, true, false, some, pos,
  length, get_elem?, get_or, set, arith, ltb, ◌==◌, done, length-set, Bool-cases, inl, inr, ltb_ℤ,
  ◌||◌, get_or-set, get_elem?-get_or, get_or-past, if◌then◌else◌, false≢true,
}
use bsl45_misc_tools.XvDat.{
  XvLst, xvlst_add, xvlst_del, memchr_zero, found_at, free_slot, mark, erange, ealready,
}
use bsl45_misc_tools.XvDat.Marks.{memchr_zero-free, avail-earlier, earlier, taken_count-free}
use bsl45_misc_tools.XvDat.Grow.{IsWellFormed}
use bsl45_misc_tools.XvDat.Add.{xvlst_add_lem}

-- The list after slot `k` was given back.
abbrev with_freed : XvLst → List Bool → ℕ → XvLst
with_freed l marks k = record {
  vec = record l.vec { len = l.vec.len - 1 };
  taken = some (set marks k false);
  last = l.last;
  avail = pos (earlier k (memchr_zero marks));
}

module _ (l : XvLst) (marks : List Bool) (k : ℕ) (h : IsWellFormed l marks) where
  -- A slot that is taken lies in the list, and is no later than `last`.
  taken_place : get_or marks k false ≡ true → (k < length marks) × (k ≤ l.last)
  taken_place e = (inside, known)
    where
      inside : k < length marks
      inside = elim (Bool-cases (ltb k (length marks))) [
        | inl y ↦ ground arith
        | inr n ↦ absurd (false≢true (sym (get_or-past marks k false (ground arith)) ∙ e))
      ]

      known : k ≤ l.last
      known = elim (Bool-cases (ltb l.last k)) [
        | inl y ↦ absurd (false≢true (sym (h.beyond k (ground arith)) ∙ e))
        | inr n ↦ ground arith
      ]

  with_freed-IsWellFormed :
      get_or marks k false ≡ true → IsWellFormed (with_freed l marks k) (set marks k false)
  with_freed-IsWellFormed e =
      let place = taken_place e in
      record {
        has_marks = refl;
        sized = length-set marks k false ∙ h.sized;
        counted = omega (arith, h.counted, taken_count-free marks k e);
        next = sym (ap (found_at 0) (memchr_zero-free marks k e) ∙ ap pos (omega arith));
        within = h.within;
        beyond = λ j q. ground (arith, get_or-set marks k j false false, place, h.beyond j);
        bounded = h.bounded;
      }

  freed : get_or marks k false ≡ true → xvlst_del l k ≡ done (pos 0, with_freed l marks k)
  unfolding xvlst_del mark free_slot
  freed e =
      let place = taken_place e in
      let known : ltb l.last k ≡ false = ground (arith, place) in
      let there : get_elem? marks k ≡ some true =
        get_elem?-get_or marks k false place.0 ∙ ap some e in
      let some_taken : ltb 0 l.vec.len ≡ true =
        ground (arith, h.counted, taken_count-free marks k e) in
      let first =
        ap (λ a. if ltb_ℤ a (pos 0) || ltb_ℤ (pos k) a then pos k else a) h.next
        ∙ avail-earlier k (memchr_zero marks) in
      rw (known, h.has_marks, there, some_taken, first) refl

-- `xvlst_del` of a slot that is taken, in a well-formed list, succeeds: it frees the slot and no other,
-- and leaves the list well formed.
pub xvlst_del_lem :
    (l : XvLst) (marks : List Bool) (k : ℕ)
    → IsWellFormed l marks
    → get_or marks k false ≡ true
    → (l' : XvLst) × (after : List Bool) × (xvlst_del l k ≡ done (pos 0, l'))
      × IsWellFormed l' after
      × ((j : ℕ) → get_or after j false ≡ (if k == j then false else get_or marks j false))
xvlst_del_lem l marks k h e = (
  with_freed l marks k,
  set marks k false,
  freed l marks k h e,
  with_freed-IsWellFormed l marks k h e,
  λ j. get_or-set marks k j false false ((taken_place l marks k h e).0),
)

-- `xvlst_del` of a slot that is not taken, in a well-formed list, returns an error and changes
-- nothing, whatever the index.
xvlst_del-free :
    (l : XvLst) (marks : List Bool) (k : ℕ)
    → IsWellFormed l marks
    → get_or marks k false ≡ false
    → (error : ℕ) × (xvlst_del l k ≡ done (pos (suc error), l))
unfolding xvlst_del mark
xvlst_del-free l marks k h e = elim (Bool-cases (ltb l.last k)) [
  | inl past ↦ (erange - 1, rw past refl)
  | inr known ↦
      let there : get_elem? marks k ≡ some false =
        get_elem?-get_or marks k false (ground (arith, h.within, h.sized)) ∙ ap some e in
      (ealready - 1, rw (known, h.has_marks, there) refl)
]

-- To give back the slot that `xvlst_add` has returned makes the same slots free as before, with memory
-- served and no size overflowing.
pub xvlst_del-add :
    (junk : List Bool) (l : XvLst) (marks : List Bool) (blksz growblk : ℕ)
    → IsWellFormed l marks
    → 0 < blksz
    → 0 < growblk
    → l.vec.max_len + 1 + growblk ≤ 2 ^ 63
    → (i : ℕ) × (l' : XvLst) × (l'' : XvLst) × (after : List Bool) × (xvlst_add true
          (some junk)
          l
          blksz
          growblk
        ≡ done (pos i, l'))
      × (xvlst_del l' i ≡ done (pos 0, l''))
      × IsWellFormed l'' after
      × ((j : ℕ) → get_or after j false ≡ get_or marks j false)
xvlst_del-add junk l marks b g h hb hg hs =
    let (i, l', mid, adds, wf, before, free, changed) = xvlst_add_lem junk l marks b g h hb hg hs in
    let here : get_or mid i false ≡ true = changed i ∙ ground arith in
    let (l'', after, dels, wf', changed') = xvlst_del_lem l' mid i wf here in
    (i, l', l'', after, adds, dels, wf', λ j. ground (arith, changed' j, changed j, free))
