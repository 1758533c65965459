-- ===== src/Sort/Faults.antt =====
-- `selection_sort` and `insertion_sort` of sort/simple_sort.c do not sort.
use bsl45_misc_tools.Prelude.{
  ℕ, zero, suc, ◌+◌, ◌-◌, ◌^◌, ◌≤◌, ◌<◌, ◌≡◌, refl, sym, ◌∙◌, ap, List, [], ◌∷◌, ◌++◌, true, false,
  if◌then◌else◌, ltb, ◌==◌, ℤ, pos, ltb_ℤ, to_ssize, to_ssize_small, done, fault, get_elem?, get_or,
  set, get_elem?-get_or, length, length-append, append_assoc, arith, some, none,
}
use bsl45_misc_tools.Sort.Code.{
  swap, select, selections, selection_sort, shift, place, insertions, insertion_sort,
}
use bsl45_misc_tools.Sort.Sweep.{get_elem?-middle, get_elem?-next}
use bsl45_misc_tools.Sort.Bubble.{IsSorted}

get_elem?-past : (xs : List ℤ) (i : ℕ) → length xs ≤ i → get_elem? xs i ≡ none
get_elem?-past [] i h = refl
get_elem?-past (x ∷ xs) zero h = absurd (omega arith)
get_elem?-past (x ∷ xs) (suc i) h = get_elem?-past xs i (omega arith)

-- The inner loop stays inside of the array.
select_inside :
    (xs : List ℤ) (left j min : ℕ)
    → left + j ≤ length xs
    → min < length xs
    → (m : ℕ) × (select xs left j min ≡ done m) × (m < length xs)
unfolding select
select_inside xs zero j min h inside = (min, refl, inside)
select_inside xs (suc left) j min h inside =
    let a = get_or xs min (pos 0) in
    let b = get_or xs j (pos 0) in
    let first : get_elem? xs min ≡ some a = get_elem?-get_or xs min (pos 0) inside in
    let second : get_elem? xs j ≡ some b = get_elem?-get_or xs j (pos 0) (omega arith) in
    let (m, run, m_inside) =
      select_inside xs left (suc j) (if ltb_ℤ a b then j else min) (omega arith) (ground arith) in
    (m, rw (first, second) run, m_inside)

-- Given a list of two values or more and its length, which is below 2 ^ 64, `selection_sort` reaches
-- outside of it.
pub selection_sort-fault :
    (xs : List ℤ) → 2 ≤ length xs → length xs < 2 ^ 64 → selection_sort xs (length xs) ≡ fault
unfolding selection_sort selections swap
selection_sort-fault [] many small = absurd (omega arith)
selection_sort-fault (x ∷ xs) many small =
    let all = x ∷ xs in
    let enough : ltb (suc (length xs)) 2 ≡ false = ground arith in
    let (m, run, inside) = select_inside all (length xs) 1 0 (omega arith) (omega arith) in
    let apart : (m == 2 ^ 64 - 1) ≡ false = ground arith in
    let first : get_elem? all m ≡ some (get_or all m (pos 0)) =
      get_elem?-get_or all m (pos 0) inside in
    let second : get_elem? all (2 ^ 64 - 1) ≡ none =
      get_elem?-past all (2 ^ 64 - 1) (omega arith) in
    rw (enough, run, apart, first, second) refl

-- Given a list whose second value is below the first, and its length, which is below 2 ^ 63,
-- `insertion_sort` reaches outside of it.
insertion_sort-fault :
    (x y : ℤ) (xs : List ℤ)
    → ltb_ℤ y x ≡ true
    → suc (suc (length xs)) < 2 ^ 63
    → insertion_sort (x ∷ y ∷ xs) (suc (suc (length xs))) ≡ fault
unfolding insertion_sort insertions shift place
insertion_sort-fault x y xs less small =
    let many : ltb (suc (suc (length xs))) 2 ≡ false = ground arith in
    let size : to_ssize (suc (suc (length xs))) ≡ pos (suc (suc (length xs))) =
      to_ssize_small _ small in
    let count : suc (suc (length xs)) - 1 ≡ suc (length xs) = omega arith in
    rw (many, size, count, less) refl

-- The values after the first, the last one twice.
abbrev pub doubled : ℤ → List ℤ → List ℤ
doubled a [] = a ∷ []
doubled a (b ∷ xs) = b ∷ doubled b xs

set-middle :
    (front : List ℤ) (a v : ℤ) (xs : List ℤ)
    → set (front ++ (a ∷ xs)) (length front) v ≡ front ++ (v ∷ xs)
set-middle [] a v xs = refl
set-middle (f ∷ front) a v xs = ap (λ l. f ∷ l) (set-middle front a v xs)

insertions-doubled :
    (front : List ℤ) (a : ℤ) (xs : List ℤ) (i : ℕ)
    → i ≡ suc (length front)
    → IsSorted (a ∷ xs)
    → insertions (length xs) i (front ++ (a ∷ xs)) ≡ done (front ++ doubled a xs)
unfolding insertions shift place
insertions-doubled front a [] i at s = refl
insertions-doubled front a (b ∷ xs) i at s =
    let first : get_elem? (front ++ (a ∷ (b ∷ xs))) (length front) ≡ some a =
      get_elem?-middle front a (b ∷ xs) in
    let second : get_elem? (front ++ (a ∷ (b ∷ xs))) (suc (length front)) ≡ some b =
      get_elem?-next front a b xs in
    let above : ltb_ℤ b a ≡ false = ground (arith, s.0.0) in
    let next =
      insertions-doubled (front ++ b ∷ []) b xs (suc (suc (length front)))
        (omega (arith, length-append front (b ∷ []))) s.1 in
    rw (at, second, first, above, first, set-middle front a b (b ∷ xs))
      (ap (λ l. insertions (length xs) (suc (suc (length front))) l)
          (sym (append_assoc front (b ∷ []) (b ∷ xs)))
        ∙ next
        ∙ ap done (append_assoc front (b ∷ []) (doubled b xs)))

-- Given an ascending list of two values or more and its length, which is below 2 ^ 63,
-- `insertion_sort` ends, and leaves the values without the first, the last one twice.
pub insertion_sort-doubled :
    (x y : ℤ) (xs : List ℤ)
    → IsSorted (x ∷ y ∷ xs)
    → suc (suc (length xs)) < 2 ^ 63
    → insertion_sort (x ∷ y ∷ xs) (suc (suc (length xs))) ≡ done (y ∷ doubled y xs)
unfolding insertion_sort
insertion_sort-doubled x y xs s small =
    let many : ltb (suc (suc (length xs))) 2 ≡ false = ground arith in
    let size : to_ssize (suc (suc (length xs))) ≡ pos (suc (suc (length xs))) =
      to_ssize_small _ small in
    let count : suc (suc (length xs)) - 1 ≡ suc (length xs) = omega arith in
    rw (many, size, count) (insertions-doubled [] x (y ∷ xs) 1 refl s)
