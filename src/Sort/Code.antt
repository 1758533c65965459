-- ===== src/Sort/Code.antt =====
-- The sorts of sort/simple_sort.c over a list of values: an access outside of it is a fault.
use bsl45_misc_tools.Prelude.{
  ℕ, zero, suc, ◌-◌, ◌^◌, List, ltb, ◌==◌, if◌then◌else◌, ℤ, pos_part, ltb_ℤ, to_ssize, Exec, done,
  fault, ◌>>=◌, access, get_elem?, set,
}

-- `swap (&val[i], &val[j])`
unfoldable pub swap : List ℤ → ℕ → ℕ → Exec (List ℤ)
swap val i j = do
  a ← access (get_elem? val i)
  b ← access (get_elem? val j)
  done (set (set val i b) j a)

-- The inner loop of `selection_sort`: the index that `min` comes to, with `left` values to look at.
unfoldable pub select : List ℤ → ℕ → ℕ → ℕ → Exec ℕ
select val zero j min = done min
select val (suc left) j min = do
  a ← access (get_elem? val min)
  b ← access (get_elem? val j)
  select val left (suc j) (if ltb_ℤ a b then j else min)

-- `i - 1`, in a `size_t`.
abbrev pub index_before : ℕ → ℕ
index_before zero = 2 ^ 64 - 1
index_before (suc i) = i

-- The outer loop, with `left` values to place.
unfoldable pub selections : ℕ → ℕ → List ℤ → Exec (List ℤ)
selections zero i val = done val
selections (suc left) i val = do
  min ← select val left (suc i) i
  val' ← (if min == index_before i then done val else swap val min (index_before i))
  selections left (suc i) val'

unfoldable pub selection_sort : List ℤ → ℕ → Exec (List ℤ)
selection_sort val num = if ltb num 2 then done val else selections num 0 val

-- The inner loop of `bubble_sort`, from index `j` on, which is at least 1.
unfoldable pub sweep : ℕ → ℕ → List ℤ → Exec (List ℤ)
sweep zero j val = done val
sweep (suc left) j val = do
  a ← access (get_elem? val (j - 1))
  b ← access (get_elem? val j)
  val' ← (if ltb_ℤ b a then swap val (j - 1) j else done val)
  sweep left (suc j) val'

-- The outer loop: `i` counts down.
unfoldable pub sweeps : ℕ → List ℤ → Exec (List ℤ)
sweeps zero val = done val
sweeps (suc i) val = do val' ← sweep (suc i) 1 val; sweeps i val'

unfoldable pub bubble_sort : List ℤ → ℕ → Exec (List ℤ)
bubble_sort val num = if ltb num 2 then done val else sweeps (pos_part (to_ssize num) - 1) val

-- The inner loop of `insertion_sort`, with `k` for `j + 1`.
unfoldable pub shift : List ℤ → ℤ → ℕ → Exec (List ℤ × ℕ)
shift val v zero = done (val, 0)
shift val v (suc k) = do
  a ← access (get_elem? val k)
  let next = shift (set val (suc k) a) v k
  if ltb_ℤ v a then next else done (val, suc k)

-- `val[j] = v`, with `k` for `j + 1`.
unfoldable pub place : List ℤ → ℤ → ℕ → Exec (List ℤ)
place val v zero = fault
place val v (suc k) = do old ← access (get_elem? val k); done (set val k v)

-- The outer loop, with `left` values to insert.
unfoldable pub insertions : ℕ → ℕ → List ℤ → Exec (List ℤ)
insertions zero i val = done val
insertions (suc left) i val = do
  v ← access (get_elem? val i)
  (shifted, k) ← shift val v i
  val' ← place shifted v k
  insertions left (suc i) val'

unfoldable pub insertion_sort : List ℤ → ℕ → Exec (List ℤ)
insertion_sort val num =
    if ltb num 2 then done val else insertions (pos_part (to_ssize num) - 1) 1 val
