-- ===== src/Sort/Sweep.antt =====
-- One sweep of `bubble_sort` of sort/simple_sort.c moves the greatest value to its end.
use bsl45_misc_tools.Prelude.{
  ℕ, suc, ◌-◌, ◌≡◌, refl, sym, ◌∙◌, ap, List, [], ◌∷◌, ◌++◌, true, false, if◌then◌else◌, ℤ, ◌≤ℤ◌,
  ltb_ℤ, done, get_elem?, set, length, length-append, All, arith, some, Bool-cases, inl, inr,
  append_assoc,
}
use bsl45_misc_tools.Sort.Code.{swap, sweep}
use mathlib.Core.List.{Perm}
use mathlib.Core.List.Perm

-- The values that a sweep leaves behind while it carries `a` along, and the value it ends with.
abbrev pub left_behind : ℤ → List ℤ → List ℤ
left_behind a [] = []
left_behind a (b ∷ xs) =
    let swapped = left_behind a xs in
    let kept = left_behind b xs in if ltb_ℤ b a then b ∷ swapped else a ∷ kept

abbrev pub carried : ℤ → List ℤ → ℤ
carried a [] = a
carried a (b ∷ xs) =
    let swapped = carried a xs in let kept = carried b xs in if ltb_ℤ b a then swapped else kept

pub get_elem?-middle :
    (front : List ℤ) (a : ℤ) (xs : List ℤ) → get_elem? (front ++ a ∷ xs) (length front) ≡ some a
get_elem?-middle [] a xs = refl
get_elem?-middle (f ∷ front) a xs = get_elem?-middle front a xs

pub get_elem?-next :
    (front : List ℤ) (a b : ℤ) (xs : List ℤ)
    → get_elem? (front ++ a ∷ b ∷ xs) (suc (length front)) ≡ some b
get_elem?-next [] a b xs = refl
get_elem?-next (f ∷ front) a b xs = get_elem?-next front a b xs

swap-middle :
    (front : List ℤ) (a b : ℤ) (xs : List ℤ)
    → set (set (front ++ a ∷ b ∷ xs) (length front) b) (suc (length front)) a ≡ front ++ b ∷ a ∷ xs
swap-middle [] a b xs = refl
swap-middle (f ∷ front) a b xs = ap (λ l. f ∷ l) (swap-middle front a b xs)

pub sweep_lem :
    (front : List ℤ) (a : ℤ) (xs back : List ℤ) (j : ℕ)
    → j ≡ suc (length front)
    → sweep (length xs) j (front ++ (a ∷ (xs ++ back)))
      ≡ done (front ++ (left_behind a xs ++ (carried a xs ∷ back)))
unfolding sweep swap
sweep_lem front a [] back j at = refl
sweep_lem front a (b ∷ xs) back j at =
    let rest = xs ++ back in
    let first : get_elem? (front ++ (a ∷ (b ∷ rest))) (j - 1) ≡ some a =
      ap (λ k. get_elem? (front ++ (a ∷ (b ∷ rest))) k) (omega arith)
      ∙ get_elem?-middle front a (b ∷ rest) in
    let second : get_elem? (front ++ (a ∷ (b ∷ rest))) j ≡ some b =
      ap (λ k. get_elem? (front ++ (a ∷ (b ∷ rest))) k) at ∙ get_elem?-next front a b rest in
    let before : j - 1 ≡ length front = omega arith in
    let swapped : set (set (front ++ (a ∷ (b ∷ rest))) (j - 1) b) j a ≡ front ++ (b ∷ (a ∷ rest)) =
      rw (before, at) (swap-middle front a b rest) in
    elim (Bool-cases (ltb_ℤ b a)) [
      | inl less ↦
          rw (first, second, less, swapped, sym (append_assoc front (b ∷ []) (a ∷ rest)))
            (sweep_lem (front ++ b ∷ []) a xs back (suc j)
                (omega (arith, length-append front (b ∷ [])))
              ∙ ap done (append_assoc front (b ∷ []) (left_behind a xs ++ (carried a xs ∷ back))))
      | inr more ↦
          rw (first, second, more, sym (append_assoc front (a ∷ []) (b ∷ rest)))
            (sweep_lem (front ++ a ∷ []) b xs back (suc j)
                (omega (arith, length-append front (a ∷ [])))
              ∙ ap done (append_assoc front (a ∷ []) (left_behind b xs ++ (carried b xs ∷ back))))
    ]

pub carried-Perm :
    (a : ℤ) (xs back : List ℤ) → Perm (left_behind a xs ++ (carried a xs ∷ back)) (a ∷ (xs ++ back))
carried-Perm a [] back = Perm.rfl
carried-Perm a (b ∷ xs) back = elim (Bool-cases (ltb_ℤ b a)) [
  | inl less ↦
      rw (less) (Perm.trans (Perm.cons b (carried-Perm a xs back)) (Perm.swap a b (xs ++ back)))
  | inr more ↦ rw (more) (Perm.cons a (carried-Perm b xs back))
]

pub length-left_behind : (a : ℤ) (xs : List ℤ) → length (left_behind a xs) ≡ length xs
length-left_behind a [] = refl
length-left_behind a (b ∷ xs) = elim (Bool-cases (ltb_ℤ b a)) [
  | inl less ↦ rw (less) (ap suc (length-left_behind a xs))
  | inr more ↦ rw (more) (ap suc (length-left_behind b xs))
]

at_most : (a b m : ℤ) → ltb_ℤ b a ≡ false → b ≤ℤ m → a ≤ℤ m
at_most a b m more h = ground arith

below : (b a m : ℤ) → ltb_ℤ b a ≡ true → a ≤ℤ m → b ≤ℤ m
below b a m less h = ground arith

carried-above : (a : ℤ) (xs : List ℤ) → a ≤ℤ carried a xs
carried-above a [] = omega arith
carried-above a (b ∷ xs) = elim (Bool-cases (ltb_ℤ b a)) [
  | inl less ↦ rw (less) (carried-above a xs)
  | inr more ↦ rw (more) (at_most a b (carried b xs) more (carried-above b xs))
]

-- The value that the sweep carries to its end is the greatest.
pub carried-greatest : (a : ℤ) (xs : List ℤ) → All (λ x. x ≤ℤ carried a xs) (left_behind a xs)
carried-greatest a [] = tt
carried-greatest a (b ∷ xs) = elim (Bool-cases (ltb_ℤ b a)) [
  | inl less ↦ rw (less) (below b a (carried a xs) less (carried-above a xs), carried-greatest a xs)
  | inr more ↦
      rw (more) (at_most a b (carried b xs) more (carried-above b xs), carried-greatest b xs)
]

pub carried-All :
    (P : ℤ → Type 0) (a : ℤ) (xs : List ℤ)
    → P a
    → All P xs
    → All P (left_behind a xs) × P (carried a xs)
carried-All P a [] h k = (tt, h)
carried-All P a (b ∷ xs) h k = elim (Bool-cases (ltb_ℤ b a)) [
  | inl less ↦ let (rest, last) = carried-All P a xs h k.1 in rw (less) ((k.0, rest), last)
  | inr more ↦ let (rest, last) = carried-All P b xs k.0 k.1 in rw (more) ((h, rest), last)
]
