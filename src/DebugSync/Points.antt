-- ===== src/DebugSync/Points.antt =====
-- debugsync/debugsync.c: the state `ds`, the activation flags, and the array of sync points. The
-- functions here are called with the mutex held, but for the two reads of the flags.
use bsl45_misc_tools.Prelude.{
  ℕ, zero, suc, ◌-◌, ◌^◌, List, [], ◌∷◌, ◌++◌, Bool, true, false, not, ◌&&◌, ◌||◌, Option, none,
  some, ◌==◌, leb, if◌then◌else◌, bit_and, bit_or, length, take,
}

-- `struct ds_point`. A name is its bytes without the final zero.
pub record DsPoint : Type 0 where
  pub name : List ℕ
  pub is_enabled : Bool
  pub in_syncwait : Bool
  pub nblocked : ℕ

-- `struct ds_global` without the mutex and the condition: the points in use are a list of `count`
-- elements.
pub record DsGlobal : Type 0 where
  pub activation : ℕ
  pub point : List DsPoint

abbrev pub ds_max_point_name_len : ℕ
ds_max_point_name_len = 32

abbrev pub ds_max_point_count : ℕ
ds_max_point_count = 256

abbrev pub ds_active : ℕ
ds_active = 1

abbrev pub ds_global : ℕ
ds_global = 2

unfoldable pub inactive : DsGlobal → Bool
inactive ds = bit_and ds.activation ds_active == 0

unfoldable pub local_inactive : DsGlobal → Bool
local_inactive ds = bit_and ds.activation (bit_or ds_active ds_global) == 0

-- `~DS_ACTIVE` is all ones but the lowest bit.
unfoldable pub do_activate : Bool → DsGlobal → DsGlobal
do_activate true ds = record { activation = bit_or ds.activation ds_active; point = ds.point }
do_activate false ds = record {
  activation = bit_and ds.activation (2 ^ 32 - 1 - ds_active);
  point = ds.point;
}

abbrev pub with_points : DsGlobal → List DsPoint → DsGlobal
with_points ds points = record { activation = ds.activation; point = points }

abbrev pub set_enabled : Bool → DsPoint → DsPoint
set_enabled b pt = record {
  name = pt.name;
  is_enabled = b;
  in_syncwait = pt.in_syncwait;
  nblocked = pt.nblocked;
}

abbrev pub set_syncwait : Bool → DsPoint → DsPoint
set_syncwait b pt = record {
  name = pt.name;
  is_enabled = pt.is_enabled;
  in_syncwait = b;
  nblocked = pt.nblocked;
}

abbrev pub set_nblocked : ℕ → DsPoint → DsPoint
set_nblocked n pt = record {
  name = pt.name;
  is_enabled = pt.is_enabled;
  in_syncwait = pt.in_syncwait;
  nblocked = n;
}

-- `n == 0` by clauses.
abbrev pub is_zero : ℕ → Bool
is_zero zero = true
is_zero (suc n) = false

-- The points after `disable_all`, and whether it broadcasts.
unfoldable pub disable_all : List DsPoint → List DsPoint × Bool
disable_all [] = ([], false)
disable_all (pt ∷ points) =
    let rest = disable_all points in
    (set_enabled false pt ∷ rest.0, pt.is_enabled && not (is_zero pt.nblocked) || rest.1)

-- `strcmp (a, b) == 0`.
unfoldable pub same_name : List ℕ → List ℕ → Bool
same_name [] [] = true
same_name [] (y ∷ ys) = false
same_name (x ∷ xs) [] = false
same_name (x ∷ xs) (y ∷ ys) = (x == y) && same_name xs ys

-- `strndup`, which a lack of memory fails.
unfoldable pub strndup : Bool → List ℕ → ℕ → Option (List ℕ)
strndup has_memory name n = if has_memory then some (take n name) else none

abbrev pub new_point : List ℕ → DsPoint
new_point name = record { name = name; is_enabled = true; in_syncwait = false; nblocked = 0 }

abbrev pub append_point : DsGlobal → Option (List ℕ) → Option (DsGlobal × ℕ)
append_point ds none = none
append_point ds (some name) =
    some (with_points ds (ds.point ++ new_point name ∷ []), length ds.point)

-- A pointer to a point is its index.
unfoldable pub create_new : Bool → DsGlobal → List ℕ → Option (DsGlobal × ℕ)
create_new has_memory ds point_name =
    if leb ds_max_point_count (length ds.point)
    then none
    else append_point ds (strndup has_memory point_name ds_max_point_name_len)

abbrev pub or_next : Bool → Option ℕ → Option ℕ
or_next true rest = some 0
or_next false none = none
or_next false (some i) = some (suc i)

unfoldable pub look_up : List DsPoint → List ℕ → Option ℕ
look_up [] point_name = none
look_up (pt ∷ points) point_name =
    or_next (same_name point_name pt.name) (look_up points point_name)

abbrev pub found_or_new : Bool → DsGlobal → List ℕ → Option ℕ → Option (DsGlobal × ℕ)
found_or_new has_memory ds point_name none = create_new has_memory ds point_name
found_or_new has_memory ds point_name (some i) = some (ds, i)

unfoldable pub acquire : Bool → DsGlobal → List ℕ → Option (DsGlobal × ℕ)
acquire has_memory ds point_name =
    found_or_new has_memory ds point_name (look_up ds.point point_name)
