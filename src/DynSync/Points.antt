-- ===== src/DynSync/Points.antt =====
-- The state `ds` of debugsync/debugsync_dyn.c, and the functions that add and look up points, which
-- are called with the mutex held. A pointer to a point is its place among all the points ever
-- allocated; none is freed before the end.
use bsl45_misc_tools.Prelude.{
  ℕ, zero, suc, ◌+◌, List, [], ◌∷◌, ◌++◌, Bool, true, false, not, ◌&&◌, ◌||◌, ◌==◌, ltb,
  if◌then◌else◌, Option, none, some, map, ℤ, pos, negsuc, Exec, done, fault, ◌>>=◌, access, length,
  take, get_elem?, get_or, set,
}

-- `struct ds_point`. A name is its bytes without the final zero.
pub record DsPoint : Type 0 where
  pub name : List ℕ
  pub is_enabled : Bool

-- `struct ds_global` without the mutex and the condition, and the points that are allocated. The array
-- is the list of the pointers that have been stored in it, and a pointer may be null.
pub record DsGlobal : Type 0 where
  pub signal : List ℕ
  pub point : Option (List (Option ℕ))
  pub capacity : ℕ
  pub count : ℕ
  pub heap : List DsPoint

abbrev pub ds_maxlen : ℕ
ds_maxlen = 32

abbrev pub ds_expand_by : ℕ
ds_expand_by = 8

-- The bytes of a `struct ds_point`.
abbrev pub size_of_point : ℕ
size_of_point = ds_maxlen + 1 + 1

-- A static object is zero at the start.
abbrev pub static_ds : DsGlobal
static_ds = record { signal = []; point = none; capacity = 0; count = 0; heap = [] }

-- The capacity stays.
unfoldable pub ds_init : DsGlobal → DsGlobal
ds_init ds = record ds { signal = []; point = none; count = 0 }

-- Whether `strcmp` gives a negative number.
unfoldable pub less : List ℕ → List ℕ → Bool
less [] [] = false
less [] (b ∷ other) = true
less (a ∷ name) [] = false
less (a ∷ name) (b ∷ other) = ltb a b || a == b && less name other

-- The name that a cell leads to.
abbrev pub name_of : List DsPoint → Option ℕ → Exec (List ℕ)
name_of heap none = fault
name_of heap (some p) = do pt ← access (get_elem? heap p); done pt.name

abbrev pub name_at : List DsPoint → List (Option ℕ) → ℕ → Exec (List ℕ)
name_at heap cells i = do cell ← access (get_elem? cells i); name_of heap cell

unfoldable pub swap_point : List (Option ℕ) → ℕ → ℕ → List (Option ℕ)
swap_point cells i j = set (set cells i (get_or cells j none)) j (get_or cells i none)

-- The loop that moves the last point to its place, with the index that it comes to.
unfoldable pub sink : List DsPoint → ℕ → List (Option ℕ) → Exec (List (Option ℕ) × ℕ)
sink heap zero cells = done (cells, 0)
sink heap (suc i) cells = do
  a ← name_at heap cells (suc i)
  b ← name_at heap cells i
  let rest = sink heap i (swap_point cells (suc i) i)
  if less a b then rest else done (cells, suc i)

-- The state after `realloc`, if it was needed; `grows` says whether it has memory.
unfoldable pub expand : Bool → DsGlobal → DsGlobal
expand true ds = record ds {
  point = some (elim (ds.point) [ none ↦ [] | some cells ↦ cells ]);
  capacity = ds_expand_by + ds.capacity;
}
expand false ds = record ds { point = none }

-- The point is stored and sinks to its place. The cells before it have been written.
unfoldable pub insert_point : List ℕ → DsGlobal → List (Option ℕ) → Exec (DsGlobal × Option ℕ)
insert_point name ds cells =
    let new = length ds.heap in
    let heap = ds.heap ++ (record { name = take ds_maxlen name; is_enabled = false } ∷ []) in
    do
      (sunk, i) ← sink heap ds.count (cells ++ (some new ∷ []))
      cell ← access (get_elem? sunk i)
      done (record ds { point = some sunk; count = suc ds.count; heap = heap }, cell)

-- The bytes of a pointer, on the LP64 platforms.
abbrev pub size_of_pointer : ℕ
size_of_pointer = 8

-- A whole point is written to the block of so many bytes.
unfoldable pub write_point : ℕ → List ℕ → DsGlobal → List (Option ℕ) → Exec (DsGlobal × Option ℕ)
write_point bytes name ds cells =
    if ltb bytes size_of_point then fault else insert_point name ds cells

-- `malloc` is asked for the bytes of a pointer, and `served` says whether it has them.
unfoldable pub add_to_cells :
    Bool → List ℕ → DsGlobal → List (Option ℕ) → Exec (DsGlobal × Option ℕ)
add_to_cells served name ds cells =
    if not (length cells == ds.count)
    then fault
    else if served
    then write_point size_of_pointer name ds cells
    else done (record ds { point = some (cells ++ (none ∷ [])); count = suc ds.count }, none)

unfoldable pub add_point : Bool → List ℕ → DsGlobal → Exec (DsGlobal × Option ℕ)
add_point served name ds = access ds.point >>= add_to_cells served name ds

unfoldable pub ds_add : Bool → Bool → List ℕ → DsGlobal → Exec (DsGlobal × Option ℕ)
ds_add grows served name ds =
    if ltb ds.count ds.capacity
    then add_point served name ds
    else if grows
    then add_point served name (expand true ds)
    else done (expand false ds, none)

-- What a `struct ds_point*` holds: nothing, a point, or a cell of the array, which is no point.
pub data Pointer : Type 0 where
  null : Pointer
  to_point to_cell : ℕ → Pointer

abbrev pub as_pointer : Option ℕ → Pointer
as_pointer none = null
as_pointer (some p) = to_point p

-- What lies at an address that `ds_cmp` gets: a cell of the array, or the point `key`, with its name.
pub data Element : Type 0 where
  cell : Option ℕ → Element
  key : List ℕ → Element

-- The name behind the pointer that is read at the address. Of a key that pointer is made of the first
-- bytes of the name, and leads to no point.
unfoldable pub name_in : List DsPoint → Element → Exec (List ℕ)
name_in heap (cell c) = name_of heap c
name_in heap (key name) = fault

-- The sign of what `strcmp` gives.
unfoldable pub ds_cmp : List DsPoint → Element → Element → Exec ℤ
ds_cmp heap p1 p2 = do
  a ← name_in heap p1
  b ← name_in heap p2
  done (if less a b then negsuc 0 else if less b a then pos 1 else pos 0)

-- A comparison, a key, and the array.
abbrev pub Bsearch : Type 0
Bsearch = (Element → Element → Exec ℤ) → Element → List Element → Exec (Option ℕ)

abbrev pub cell_of : Option ℕ → Pointer
cell_of none = null
cell_of (some i) = to_cell i

-- The cells of the array, all of which have been written.
unfoldable pub elements : DsGlobal → Exec (List Element)
elements ds = if ds.count == 0 then done [] else do
  cells ← access ds.point
  if length cells == ds.count then done (map cell cells) else fault

-- What `bsearch` gives is the address of a cell, and `ds_lookup` returns it as it is.
unfoldable pub ds_lookup : Bsearch → List ℕ → DsGlobal → Exec Pointer
ds_lookup bsearch name ds = do
  array ← elements ds
  found ← bsearch (ds_cmp ds.heap) (key (take ds_maxlen name)) array
  done (cell_of found)
