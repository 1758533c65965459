-- ===== src/Sort/Tests.antt =====
-- Runs of the model of sort/simple_sort.c on small inputs, and its theorems at concrete inputs.
use bsl45_misc_tools.Prelude.{◌≡◌, refl, List, [], ◌∷◌, ℤ, pos, negsuc, done, fault, arith}
use bsl45_misc_tools.Sort.Code.{
  swap, select, selections, selection_sort, shift, place, insertions, insertion_sort, sweep, sweeps,
  bubble_sort,
}
use bsl45_misc_tools.Sort.Bubble.{IsSorted, bubble_sort-IsSorted}
use bsl45_misc_tools.Sort.Faults.{selection_sort-fault, insertion_sort-doubled}
use mathlib.Core.List.{Perm}

-- 3, -2, 3, 1
abbrev mixed : List ℤ
mixed = pos 3 ∷ negsuc 1 ∷ pos 3 ∷ pos 1 ∷ []

bubble_sort-mixed : bubble_sort mixed 4 ≡ done (negsuc 1 ∷ pos 1 ∷ pos 3 ∷ pos 3 ∷ [])
unfolding bubble_sort sweeps sweep swap
bubble_sort-mixed = refl

selection_sort-mixed : selection_sort mixed 4 ≡ fault
unfolding selection_sort selections select swap
selection_sort-mixed = refl

insertion_sort-mixed : insertion_sort mixed 4 ≡ fault
unfolding insertion_sort insertions shift place
insertion_sort-mixed = refl

bubble_sort-IsSorted_example :
    (val : List ℤ) × (bubble_sort mixed 4 ≡ done val) × IsSorted val × Perm val mixed
bubble_sort-IsSorted_example = bubble_sort-IsSorted mixed (omega arith)

selection_sort-fault_example : selection_sort mixed 4 ≡ fault
selection_sort-fault_example = selection_sort-fault mixed (omega arith) (omega arith)

insertion_sort-doubled_example :
    insertion_sort (pos 1 ∷ pos 2 ∷ pos 4 ∷ []) 3 ≡ done (pos 2 ∷ pos 4 ∷ pos 4 ∷ [])
insertion_sort-doubled_example =
    insertion_sort-doubled (pos 1) (pos 2) (pos 4 ∷ []) (omega arith) (omega arith)
