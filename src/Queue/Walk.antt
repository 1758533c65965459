-- ===== src/Queue/Walk.antt =====
-- Going round a circular array, and what stands in it along the way.
use bsl45_misc_tools.Prelude.{
  ℕ, zero, suc, ◌+◌, ◌-◌, ◌<◌, ◌≡◌, ◌≢◌, refl, ◌∙◌, arith, List, [], ◌∷◌, ◌++◌, some, leb,
  if◌then◌else◌, length, get_elem?, set, get_elem?-set_self, get_elem?-set_ne,
}

abbrev pub next : ℕ → ℕ → ℕ
next max i = if leb max (i + 1) then 0 else i + 1

abbrev pub walk : ℕ → ℕ → ℕ → ℕ
walk max i zero = i
walk max i (suc n) = walk max (next max i) n

-- Less than a full round ends at the sum, less the size if that is passed.
pub walk_lem :
    (max i n : ℕ)
    → i < max
    → n < max
    → walk max i n ≡ (if leb max (i + n) then i + n - max else i + n)
walk_lem max i zero h k = ground arith
walk_lem max i (suc n) h k = ground (arith, walk_lem max (next max i) n)

pub next-walk : (max i n : ℕ) → next max (walk max i n) ≡ walk max i (suc n)
next-walk max i zero = refl
next-walk max i (suc n) = next-walk max (next max i) n

-- `xs` lies in the array from index `i` on.
abbrev pub Lies : List ℕ → ℕ → ℕ → List ℕ → Type 0
Lies slots max i [] = Unit
Lies slots max i (x ∷ xs) = (get_elem? slots i ≡ some x) × Lies slots max (next max i) xs

-- A write just past the list extends it.
pub Lies-set :
    (slots : List ℕ) (max i j v : ℕ) (xs : List ℕ)
    → length slots ≡ max
    → i < max
    → length xs < max
    → j ≡ walk max i (length xs)
    → Lies slots max i xs
    → Lies (set slots j v) max i (xs ++ (v ∷ []))
Lies-set slots max i j v [] l h k e s = (rw e (get_elem?-set_self slots i v (omega arith)), tt)
Lies-set slots max i j v (x ∷ xs) l h k e s = (
  get_elem?-set_ne slots v other ∙ s.0,
  Lies-set slots max (next max i) j v xs l (ground arith) (omega arith) e s.1,
)
  where
    other : j ≢ i
    other = ground (arith, walk_lem max i (suc (length xs)) h k)
