-- ===== src/DynSync/Acquire.antt =====
-- The sorted insertion of `ds_add` of debugsync/debugsync_dyn.c, behind the allocation of the point: in
-- the program the block is too small for it, so that `write_point` faults before.
use bsl45_misc_tools.Prelude.{
  ℕ, ◌≤◌, ◌≡◌, refl, List, [], ◌∷◌, ◌++◌, false, Option, some, Exec, done, ◌>>=◌, access, length,
  take, get_elem?,
}
use bsl45_misc_tools.DynSync.Points.{DsPoint, DsGlobal, ds_maxlen}
use bsl45_misc_tools.DynSync.Names.{IsAscending, Named}
use mathlib.Core.List.{Perm}
use mathlib.Core.List.Perm

-- The array holds the points of these names, in order.
pub record IsOrdered (ds : DsGlobal) (cells : List (Option ℕ)) (names : List (List ℕ))
    : Type 0 where
  pub stored : ds.point ≡ some cells
  pub counted : length cells ≡ ds.count
  pub fits : ds.count ≤ ds.capacity
  pub named : Named ds.heap cells names
  pub ascends : IsAscending names

pub reads-last :
    (heap : List DsPoint) (pt : DsPoint) → get_elem? (heap ++ (pt ∷ [])) (length heap) ≡ some pt
reads-last [] pt = refl
reads-last (q ∷ heap) pt = reads-last heap pt

-- The end of `name_of`.
abbrev read_name : Option DsPoint → Exec (List ℕ)
read_name o = do pt ← access o; done pt.name

-- The new point.
abbrev pub new_point : List ℕ → DsPoint
new_point name = record { name = take ds_maxlen name; is_enabled = false }

-- What has come of an addition.
pub record IsAdded (before after : DsGlobal) (name : List ℕ) (cells : List (Option ℕ))
    (names names' : List (List ℕ)) : Type 0 where
  pub ordered : IsOrdered after cells names'
  pub perm : Perm names' (take ds_maxlen name ∷ names)
  pub place : ℕ
  pub at_place : get_elem? names' place ≡ some (take ds_maxlen name)
  pub allocated : after.heap ≡ before.heap ++ (new_point name ∷ [])
  pub same_signal : after.signal ≡ before.signal

pub done-injective : {A : Type 0} (a b : A) → done a ≡ done b → a ≡ b
done-injective a b e = cc e
