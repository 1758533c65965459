-- ===== src/DebugSync/Names.antt =====
-- Points are found by the names under which debugsync/debugsync.c created them, if these are short
-- enough to be kept whole.
use bsl45_misc_tools.Prelude.{
  ℕ, suc, ◌≤◌, ◌<◌, ◌≡◌, refl, ap, subst, sym, ◌∙◌, List, [], ◌∷◌, ◌++◌, Bool, true, false, Option,
  none, some, length, leb, All, arith, none-ne-some, Bool-cases, Option-cases, inl, inr, take_all,
}
use bsl45_misc_tools.DebugSync.Points.{
  DsPoint, DsGlobal, same_name, look_up, or_next, strndup, new_point, create_new, found_or_new,
  acquire, ds_max_point_name_len, ds_max_point_count,
}

same_name_refl : (name : List ℕ) → same_name name name ≡ true
unfolding same_name
same_name_refl [] = refl
same_name_refl (x ∷ xs) = let rest = same_name_refl xs in ground arith

-- Names of different lengths are not the same.
same_name-longer : (a b : List ℕ) → length b < length a → same_name a b ≡ false
unfolding same_name
same_name-longer [] b h = absurd (omega arith)
same_name-longer (x ∷ xs) [] h = refl
same_name-longer (x ∷ xs) (y ∷ ys) h =
    let rest = same_name-longer xs ys (omega arith) in ground arith

abbrev pub IsShort : DsPoint → Type 0
IsShort pt = length pt.name ≤ ds_max_point_name_len

-- A name longer than the 32 bytes that are kept is never found among the points, even if a point
-- was created for it: every call with it is for a new point.
look_up-long :
    (points : List DsPoint) (name : List ℕ)
    → All IsShort points
    → ds_max_point_name_len < length name
    → look_up points name ≡ none
unfolding look_up
look_up-long [] name hp h = refl
look_up-long (pt ∷ points) name hp h =
    rw (same_name-longer name pt.name (omega (arith, hp.0)), look_up-long points name hp.1 h) refl

-- A new point is found last.
look_up-append :
    (points : List DsPoint) (name : List ℕ)
    → look_up points name ≡ none
    → look_up (points ++ new_point name ∷ []) name ≡ some (length points)
unfolding look_up
look_up-append [] name h = rw (same_name_refl name) refl
look_up-append (pt ∷ points) name h = elim (Bool-cases (same_name name pt.name)) [
  | inl e ↦ absurd (none-ne-some 0 (sym h ∙ ap (λ b. or_next b (look_up points name)) e))
  | inr e ↦ elim (Option-cases (look_up points name)) [
    | inl k ↦ rw (e, look_up-append points name k) refl
    | inr (i, k) ↦ absurd (
        none-ne-some (suc i)
          (sym h ∙ ap (λ b. or_next b (look_up points name)) e ∙ ap (or_next false) k))
  ]
]

-- What a pointer to a point is good for: the name leads to it again.
abbrev LeadsTo : List ℕ → Option (DsGlobal × ℕ) → Type 0
LeadsTo name none = Unit
LeadsTo name (some (after, i)) = look_up after.point name ≡ some i

create_new-LeadsTo :
    (has_memory : Bool) (ds : DsGlobal) (name : List ℕ)
    → length name ≤ ds_max_point_name_len
    → look_up ds.point name ≡ none
    → LeadsTo name (create_new has_memory ds name)
unfolding create_new strndup
create_new-LeadsTo true ds name h e = elim (Bool-cases (leb ds_max_point_count (length ds.point))) [
  | inl k ↦ rw k tt
  | inr k ↦ rw (k, take_all ds_max_point_name_len name h) (look_up-append ds.point name e)
]
create_new-LeadsTo false ds name h e =
    elim (Bool-cases (leb ds_max_point_count (length ds.point))) [
      | inl k ↦ rw k tt
      | inr k ↦ rw k tt
    ]

found_or_new-LeadsTo :
    (has_memory : Bool) (ds : DsGlobal) (name : List ℕ) (o : Option ℕ)
    → length name ≤ ds_max_point_name_len
    → look_up ds.point name ≡ o
    → LeadsTo name (found_or_new has_memory ds name o)
found_or_new-LeadsTo has_memory ds name none h e = create_new-LeadsTo has_memory ds name h e
found_or_new-LeadsTo has_memory ds name (some i) h e = e

-- For a name of at most 32 bytes, the point that `acquire` gives, found or created, is the one that
-- `look_up` finds among the points as `acquire` leaves them.
pub look_up-acquire :
    (has_memory : Bool) (ds after : DsGlobal) (name : List ℕ) (i : ℕ)
    → length name ≤ ds_max_point_name_len
    → acquire has_memory ds name ≡ some (after, i)
    → look_up after.point name ≡ some i
unfolding acquire
look_up-acquire has_memory ds after name i h e =
    subst (LeadsTo name) e (found_or_new-LeadsTo has_memory ds name (look_up ds.point name) h refl)
