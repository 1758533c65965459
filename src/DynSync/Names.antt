-- ===== src/DynSync/Names.antt =====
-- The order of names in debugsync/debugsync_dyn.c.
use bsl45_misc_tools.Prelude.{
  ℕ, ◌≡◌, ◌⊎◌, inl, inr, refl, ap₂, List, [], ◌∷◌, true, false, ◌==◌, arith, Bool-cases, done,
  Option,
}
use bsl45_misc_tools.DynSync.Points.{DsPoint, less, name_of}
use bsl45_misc_tools.DynSync.Calls.{same}

-- Of two names that are not in order, the other one is less, or they are the same.
pub less_total : (a b : List ℕ) → less a b ≡ false → (less b a ≡ true) ⊎ (a ≡ b)
unfolding less
less_total [] [] h = inr refl
less_total [] (y ∷ b) h = cc h
less_total (x ∷ a) [] h = inl refl
less_total (x ∷ a) (y ∷ b) h = elim (Bool-cases (x == y)) [
  | inl e ↦
      let rest : less a b ≡ false = ground arith in
      elim (less_total a b rest) [
        | inl more ↦ inl (ground arith)
        | inr equal ↦ inr (ap₂ (λ (k : ℕ) (l : List ℕ). k ∷ l) (ground arith) equal)
      ]
  | inr e ↦ inl (ground arith)
]

pub same-eq : (a b : List ℕ) → same a b ≡ true → a ≡ b
same-eq a b h =
    let first : less a b ≡ false = ground arith in
    let second : less b a ≡ false = ground arith in
    elim (less_total a b first) [ inl more ↦ cc (more, second) | inr e ↦ e ]

-- Names in ascending order, without repetition.
abbrev pub IsAscending : List (List ℕ) → Type 0
IsAscending [] = Unit
IsAscending (a ∷ []) = Unit
IsAscending (a ∷ b ∷ names) = (less a b ≡ true) × IsAscending (b ∷ names)

-- The cells lead to the names.
abbrev pub Named : List DsPoint → List (Option ℕ) → List (List ℕ) → Type 0
Named heap [] [] = Unit
Named heap [] (n ∷ names) = ⊥
Named heap (c ∷ cells) [] = ⊥
Named heap (c ∷ cells) (n ∷ names) = (name_of heap c ≡ done n) × Named heap cells names
