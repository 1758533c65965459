-- ===== src/Sort/Bubble.antt =====
-- `bubble_sort` of sort/simple_sort.c sorts.
use bsl45_misc_tools.Prelude.{
  ℕ, zero, suc, ◌-◌, ◌^◌, ◌<◌, ◌≡◌, refl, sym, subst, append-nil, ◌∙◌, ap, List, [], ◌∷◌, ◌++◌,
  false, ltb, ℤ, pos, ◌≤ℤ◌, to_ssize, to_ssize_small, done, length, All, arith,
}
use bsl45_misc_tools.Sort.Code.{sweep, sweeps, bubble_sort}
use bsl45_misc_tools.Sort.Sweep.{
  left_behind, carried, sweep_lem, carried-Perm, length-left_behind, carried-greatest, carried-All,
}
use mathlib.Core.List.{Perm}
use mathlib.Core.List.Perm

-- Each value is at most those after it.
abbrev pub IsSorted : List ℤ → Type 0
IsSorted [] = Unit
IsSorted (x ∷ xs) = All (λ y. x ≤ℤ y) xs × IsSorted xs

-- A value below all of the values.
abbrev IsBelow : List ℤ → ℤ → Type 0
IsBelow back x = All (λ y. x ≤ℤ y) back

All-both : (P Q : ℤ → Type 0) (xs : List ℤ) → All P xs → All Q xs → All (λ x. P x × Q x) xs
All-both P Q [] h k = tt
All-both P Q (x ∷ xs) h k = ((h.0, k.0), All-both P Q xs h.1 k.1)

-- `sweeps` sorts the first values, where those after them are in their places.
sweeps-IsSorted :
    (i : ℕ) (front back : List ℤ)
    → length front ≡ suc i
    → IsSorted back
    → All (IsBelow back) front
    → (val : List ℤ) × (sweeps i (front ++ back) ≡ done val)
      × IsSorted val
      × Perm val (front ++ back)
unfolding sweeps
sweeps-IsSorted i [] back n s h = absurd (omega arith)
sweeps-IsSorted zero (a ∷ []) back n s h = (a ∷ back, refl, (h.0, s), Perm.rfl)
sweeps-IsSorted zero (a ∷ b ∷ xs) back n s h = absurd (omega arith)
sweeps-IsSorted (suc i) (a ∷ xs) back n s h =
    let m = carried a xs in
    let rest = left_behind a xs in
    let swept : sweep (suc i) 1 (a ∷ (xs ++ back)) ≡ done (rest ++ (m ∷ back)) =
      ap (λ k. sweep k 1 (a ∷ (xs ++ back))) (omega arith)
      ∙ sweep_lem [] a xs back 1 (omega arith) in
    let (rest_below, m_below) = carried-All (IsBelow back) a xs h.0 h.1 in
    let (val, run, sorted, perm) =
      sweeps-IsSorted i rest (m ∷ back) (omega (arith, length-left_behind a xs)) (m_below, s)
        (All-both (λ x. x ≤ℤ m) (IsBelow back) rest (carried-greatest a xs) rest_below) in
    (val, rw (swept) run, sorted, Perm.trans perm (carried-Perm a xs back))

nothing-IsBelow : (xs : List ℤ) → All (IsBelow []) xs
nothing-IsBelow [] = tt
nothing-IsBelow (x ∷ xs) = (tt, nothing-IsBelow xs)

-- Given a list and its length, which is below 2 ^ 63, `bubble_sort` stays inside of it, ends, and
-- leaves the same values in ascending order.
pub bubble_sort-IsSorted :
    (xs : List ℤ)
    → length xs < 2 ^ 63
    → (val : List ℤ) × (bubble_sort xs (length xs) ≡ done val) × IsSorted val × Perm val xs
unfolding bubble_sort
bubble_sort-IsSorted [] small = ([], refl, tt, Perm.rfl)
bubble_sort-IsSorted (x ∷ []) small = (x ∷ [], refl, (tt, tt), Perm.rfl)
bubble_sort-IsSorted (x ∷ y ∷ xs) small =
    let all = x ∷ y ∷ xs in
    let many : ltb (suc (suc (length xs))) 2 ≡ false = ground arith in
    let size : to_ssize (suc (suc (length xs))) ≡ pos (suc (suc (length xs))) =
      to_ssize_small _ small in
    let count : suc (suc (length xs)) - 1 ≡ suc (length xs) = omega arith in
    let (val, run, sorted, perm) =
      sweeps-IsSorted (suc (length xs)) all [] refl tt (nothing-IsBelow all) in
    (
      val,
      rw (many, size, count) (ap (λ l. sweeps (suc (length xs)) l) (sym (append-nil all)) ∙ run),
      sorted,
      subst (λ l. Perm val l) (append-nil all) perm,
    )
