-- ===== src/DebugSync/Calls.antt =====
-- debugsync/debugsync.c: the interface functions, cut where the mutex is released: each function
-- here runs from `pthread_mutex_lock`, or from the return of `pthread_cond_wait`, to the next
-- `pthread_cond_wait` or to the end of the call.
use bsl45_misc_tools.Prelude.{
  ℕ, suc, ◌-◌, List, [], Bool, true, false, not, ◌&&◌, Option, none, some, if◌then◌else◌, ℤ, pos,
  negsuc, get_elem?, set,
}
use bsl45_misc_tools.DebugSync.Points.{
  DsPoint, DsGlobal, inactive, do_activate, with_points, set_enabled, set_syncwait, set_nblocked,
  disable_all, look_up, acquire, is_zero,
}

-- Who sleeps: a call of `ds_wait` or one of `ds_exec`.
pub data Side : Type 0 where
  waiter holder : Side

-- How a section ends: the call returns, it sleeps on a point, or an `assert` fails.
pub data Reply : Type 0 where
  returns : ℤ → Reply
  sleeps : Side → ℕ → Reply
  aborts : Reply

-- `woken` says whether the section broadcasts.
pub record Section : Type 0 where
  pub state : DsGlobal
  pub woken : Bool
  pub reply : Reply

abbrev pub section : DsGlobal → Bool → Reply → Section
section ds woken reply = record { state = ds; woken = woken; reply = reply }

abbrev pub put_point : DsGlobal → ℕ → DsPoint → DsGlobal
put_point ds i pt = with_points ds (set ds.point i pt)

abbrev pub minus_one : ℤ
minus_one = negsuc 0

unfoldable pub ds_init : ℕ → DsGlobal
ds_init activation_flags = record { activation = activation_flags; point = [] }

unfoldable pub ds_disable_all : DsGlobal → Section
ds_disable_all ds =
    if inactive ds
    then section ds false (returns (pos 0))
    else section (with_points ds ((disable_all ds.point).0)) ((disable_all ds.point).1)
        (returns (pos 0))

-- The branch of `ds_activate` that takes the lock.
unfoldable pub ds_activate : Bool → DsGlobal → Section
ds_activate activate ds =
    if inactive ds
    then section (do_activate activate ds) false (returns (pos 0))
    else section (do_activate activate (with_points ds ((disable_all ds.point).0)))
        ((disable_all ds.point).1) (returns (pos 0))

-- `rc` is what `pthread_cond_broadcast` returns.
abbrev pub enable_at : ℕ → Bool → ℕ → Option DsPoint → DsGlobal → Section
enable_at rc enable i none ds = section ds false (returns minus_one)
enable_at rc enable i (some pt) ds =
    if not enable && not (is_zero pt.nblocked)
    then section (put_point ds i (set_enabled enable pt)) true (returns (pos rc))
    else section (put_point ds i (set_enabled enable pt)) false (returns (pos 0))

abbrev pub enable_found : ℕ → Bool → Option ℕ → DsGlobal → Section
enable_found rc enable none ds = section ds false (returns minus_one)
enable_found rc enable (some i) ds = enable_at rc enable i (get_elem? ds.point i) ds

unfoldable pub ds_enable : ℕ → List ℕ → Bool → DsGlobal → Section
ds_enable rc point_name enable ds =
    if inactive ds
    then section ds false (returns minus_one)
    else enable_found rc enable (look_up ds.point point_name) ds

-- The loop of `ds_exec` and what follows it. `rc` is the result of the broadcast, or of the wait.
unfoldable pub exec_loop : ℕ → Bool → ℕ → DsPoint → DsGlobal → Section
exec_loop rc woken i pt ds =
    if is_zero rc && (pt.in_syncwait && pt.is_enabled)
    then section ds woken (sleeps holder i)
    else section (put_point ds i (set_syncwait false pt)) woken
        (returns (if pt.is_enabled then pos rc else minus_one))

abbrev pub exec_at : ℕ → ℕ → Option DsPoint → DsGlobal → Section
exec_at rc i none ds = section ds false (returns minus_one)
exec_at rc i (some pt) ds =
    if pt.is_enabled && pt.in_syncwait
    then section ds false (returns minus_one)
    else if is_zero pt.nblocked
    then section ds false (returns (pos 0))
    else exec_loop rc true i (set_syncwait true pt) (put_point ds i (set_syncwait true pt))

abbrev pub exec_acquired : ℕ → DsGlobal → Option (DsGlobal × ℕ) → Section
exec_acquired rc ds none = section ds false (returns minus_one)
exec_acquired rc ds (some (after, i)) = exec_at rc i (get_elem? after.point i) after

unfoldable pub ds_exec : ℕ → Bool → List ℕ → DsGlobal → Section
ds_exec rc has_memory point_name ds =
    if inactive ds
    then section ds false (returns minus_one)
    else exec_acquired rc ds (acquire has_memory ds point_name)

-- The loop of `ds_wait` and what follows it. `rc` is 0 at first, then the result of the wait.
unfoldable pub wait_loop : ℕ → ℕ → DsPoint → DsGlobal → Section
wait_loop rc i pt ds =
    if is_zero rc && (not pt.in_syncwait && pt.is_enabled)
    then section ds false (sleeps waiter i)
    else section ds false (returns (if pt.is_enabled then pos rc else minus_one))

abbrev pub wait_at : ℕ → Option DsPoint → DsGlobal → Section
wait_at i none ds = section ds false (returns minus_one)
wait_at i (some pt) ds =
    wait_loop 0 i (set_nblocked (suc pt.nblocked) pt)
      (put_point ds i (set_nblocked (suc pt.nblocked) pt))

abbrev pub wait_acquired : DsGlobal → Option (DsGlobal × ℕ) → Section
wait_acquired ds none = section ds false (returns minus_one)
wait_acquired ds (some (after, i)) = wait_at i (get_elem? after.point i) after

unfoldable pub ds_wait : Bool → List ℕ → DsGlobal → Section
ds_wait has_memory point_name ds =
    if inactive ds
    then section ds false (returns minus_one)
    else wait_acquired ds (acquire has_memory ds point_name)

-- The return from `pthread_cond_wait` with `rc`.
abbrev pub resume_at : Side → ℕ → ℕ → Option DsPoint → DsGlobal → Section
resume_at side rc i none ds = section ds false (returns minus_one)
resume_at waiter rc i (some pt) ds = wait_loop rc i pt ds
resume_at holder rc i (some pt) ds = exec_loop rc false i pt ds

abbrev pub resume : Side → ℕ → ℕ → DsGlobal → Section
resume side rc i ds = resume_at side rc i (get_elem? ds.point i) ds

abbrev pub unblock_at : ℕ → ℕ → Option DsPoint → DsGlobal → Section
unblock_at rc i none ds = section ds false (returns minus_one)
unblock_at rc i (some pt) ds =
    if is_zero pt.nblocked
    then section ds false aborts
    else if is_zero (pt.nblocked - 1)
    then section (put_point ds i (set_syncwait false (set_nblocked 0 pt))) true (returns (pos rc))
    else section (put_point ds i (set_nblocked (pt.nblocked - 1) pt)) false (returns (pos 0))

abbrev pub unblock_found : ℕ → Option ℕ → DsGlobal → Section
unblock_found rc none ds = section ds false (returns minus_one)
unblock_found rc (some i) ds = unblock_at rc i (get_elem? ds.point i) ds

unfoldable pub ds_unblock : ℕ → List ℕ → DsGlobal → Section
ds_unblock rc point_name ds =
    if inactive ds
    then section ds false (returns minus_one)
    else unblock_found rc (look_up ds.point point_name) ds
