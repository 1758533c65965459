-- ===== src/XvDat/Tests.antt =====
-- Concrete lists of fdwatch/xvdat.c, and the instances of the theorems.
use bsl45_misc_tools.Prelude.{
  ℕ, ◌≡◌, refl, List, [], ◌∷◌, Bool, true, false, none, some, pos, negsuc, get_or, get_or-past,
  arith, done, ◌==◌, if◌then◌else◌,
}
use bsl45_misc_tools.XvDat.{
  XvLst, xvec_reserve, xvlst_reserve, xvlst_expand, xvlst_add, xvlst_del, memchr_zero, next_avail,
  take_slot, blocks, after_reserve, grow_marks, regrow,
}
use bsl45_misc_tools.XvDat.Marks.{taken_count}
use bsl45_misc_tools.XvDat.Grow.{IsWellFormed}
use bsl45_misc_tools.XvDat.Add.{TakesFirst, xvlst_add_lem}
use bsl45_misc_tools.XvDat.Del.{xvlst_del_lem, xvlst_del-add}

-- Three slots, the middle one free.
abbrev gap_marks : List Bool
gap_marks = true ∷ false ∷ true ∷ []

abbrev gap : XvLst
gap = record {
  vec = record { size = 24; len = 2; max_len = 3 };
  taken = some gap_marks;
  last = 2;
  avail = pos 1;
}

gap-IsWellFormed : IsWellFormed gap gap_marks
unfolding memchr_zero taken_count
gap-IsWellFormed = record {
  has_marks = refl;
  sized = omega arith;
  counted = refl;
  next = refl;
  within = omega arith;
  beyond = λ j h. get_or-past gap_marks j false (omega arith);
  bounded = omega arith;
}

-- Two slots, both taken.
abbrev full_marks : List Bool
full_marks = true ∷ true ∷ []

abbrev full : XvLst
full = record {
  vec = record { size = 16; len = 2; max_len = 2 };
  taken = some full_marks;
  last = 1;
  avail = negsuc 0;
}

full-IsWellFormed : IsWellFormed full full_marks
unfolding memchr_zero taken_count
full-IsWellFormed = record {
  has_marks = refl;
  sized = omega arith;
  counted = refl;
  next = refl;
  within = omega arith;
  beyond = λ j h. get_or-past full_marks j false (omega arith);
  bounded = omega arith;
}

no_slot : memchr_zero full_marks ≡ none
unfolding memchr_zero
no_slot = refl

-- The gap is filled, and the list is full.
add_gap :
    xvlst_add true none gap 8 4
    ≡ done (
      pos 1,
      record {
        vec = record { size = 24; len = 3; max_len = 3 };
        taken = some (true ∷ true ∷ true ∷ []);
        last = 2;
        avail = negsuc 0;
      },
    )
unfolding xvlst_add xvlst_expand xvlst_reserve take_slot next_avail memchr_zero
add_gap = refl

-- A block of four is added.
add_full :
    xvlst_add true (some []) full 8 4
    ≡ done (
      pos 2,
      record {
        vec = record { size = 32; len = 3; max_len = 4 };
        taken = some (true ∷ true ∷ true ∷ false ∷ []);
        last = 2;
        avail = pos 3;
      },
    )
unfolding xvlst_add xvlst_expand xvlst_reserve xvec_reserve blocks after_reserve grow_marks regrow
    take_slot next_avail
add_full = refl

xvlst_add_lem_example : TakesFirst full_marks (xvlst_add true (some (true ∷ [])) full 8 4)
xvlst_add_lem_example =
    xvlst_add_lem (true ∷ []) full full_marks 8 4 full-IsWellFormed (omega arith) (omega arith)
      (omega arith)

xvlst_del_lem_example :
    (l' : XvLst) × (after : List Bool) × (xvlst_del gap 2 ≡ done (pos 0, l'))
    × IsWellFormed l' after
    × ((j : ℕ) → get_or after j false ≡ (if 2 == j then false else get_or gap_marks j false))
xvlst_del_lem_example = xvlst_del_lem gap gap_marks 2 gap-IsWellFormed refl

xvlst_del-add_example :
    (i : ℕ) × (l' : XvLst) × (l'' : XvLst) × (after : List Bool) × (xvlst_add true (some []) gap 8 4
      ≡ done (pos i, l'))
    × (xvlst_del l' i ≡ done (pos 0, l''))
    × IsWellFormed l'' after
    × ((j : ℕ) → get_or after j false ≡ get_or gap_marks j false)
xvlst_del-add_example =
    xvlst_del-add [] gap gap_marks 8 4 gap-IsWellFormed (omega arith) (omega arith) (omega arith)
