-- ===== src/DynSync/Calls.antt =====
-- The interface of debugsync/debugsync_dyn.c. Each function runs with the mutex held, up to its
-- return or to a sleep in `pthread_cond_wait`, which succeeds.
use bsl45_misc_tools.Prelude.{
  ℕ, List, Bool, false, not, ◌&&◌, if◌then◌else◌, Option, none, some, ℤ, pos, negsuc, Exec, done,
  fault, ◌>>=◌, access, take, get_elem?, set,
}
use bsl45_misc_tools.DynSync.Points.{
  DsGlobal, Bsearch, Pointer, null, to_point, to_cell, as_pointer, ds_maxlen, less, ds_add,
  ds_lookup,
}

-- Whether `strncmp` gives 0: the signal is at most as long as what is compared.
abbrev pub same : List ℕ → List ℕ → Bool
same a b = not (less a b) && not (less b a)

-- A return with a value, or a sleep for a name; in `ds_set` with the point, whose flag is looked at.
pub data Reply : Type 0 where
  returns : ℤ → Reply
  sleeps : List ℕ → Option Pointer → Reply

pub record Section : Type 0 where
  pub state : DsGlobal
  pub reply : Reply

-- `pt->is_enabled`, which only a point has.
unfoldable pub is_enabled_at : Pointer → DsGlobal → Exec Bool
is_enabled_at null ds = fault
is_enabled_at (to_cell i) ds = fault
is_enabled_at (to_point p) ds = do pt ← access (get_elem? ds.heap p); done pt.is_enabled

unfoldable pub set_enabled : Bool → Pointer → DsGlobal → Exec DsGlobal
set_enabled b null ds = fault
set_enabled b (to_cell i) ds = fault
set_enabled b (to_point p) ds = do
  pt ← access (get_elem? ds.heap p)
  done (record ds { heap = set ds.heap p (record pt { is_enabled = b }) })

-- Whether the wait has been given up: the flag, where there is one, is off.
unfoldable pub given_up : Option Pointer → DsGlobal → Exec Bool
given_up none ds = done false
given_up (some pt) ds = do enabled ← is_enabled_at pt ds; done (not enabled)

-- One round of the loop of `wait_on`, which ends with a value or sleeps.
unfoldable pub wait_on : List ℕ → Option Pointer → DsGlobal → Exec (Option ℤ)
wait_on name pt ds =
    if same ds.signal name
    then done (some (pos 0))
    else do off ← given_up pt ds; if off then done (some (negsuc 0)) else done none

-- After the loop `ds_set` disables its point, and `ds_wait` has none.
unfoldable pub leave : Option Pointer → ℤ → DsGlobal → Exec Section
leave none rc ds = done (record { state = ds; reply = returns rc })
leave (some pt) rc ds = do
  ds' ← set_enabled false pt ds
  done (record { state = ds'; reply = returns rc })

-- A thread in `wait_on`, when it comes to the loop or is woken.
unfoldable pub waiting : List ℕ → Option Pointer → DsGlobal → Exec Section
waiting name pt ds = do
  ended ← wait_on name pt ds
  elim ended [
    | none ↦ done (record { state = ds; reply = sleeps name pt })
    | some rc ↦ leave pt rc ds
  ]

-- The point of a name, which is added if it is not found.
unfoldable pub acquire : Bsearch → Bool → Bool → List ℕ → DsGlobal → Exec (DsGlobal × Pointer)
acquire bsearch grows served name ds = do
  found ← ds_lookup bsearch name ds
  elim found [
    | null ↦ do (grown, p) ← ds_add grows served name ds; done (grown, as_pointer p)
    | to_point p ↦ done (ds, to_point p)
    | to_cell i ↦ done (ds, to_cell i)
  ]

-- `ds_set` when it has its point.
unfoldable pub set_point : List ℕ → Bool → Pointer → DsGlobal → Exec Section
set_point name enable null ds = done (record { state = ds; reply = returns (negsuc 0) })
set_point name enable (to_point p) ds = do
  ds' ← set_enabled enable (to_point p) ds
  if enable
      then waiting name (some (to_point p)) ds'
      else done (record { state = ds'; reply = returns (pos 0) })
set_point name enable (to_cell i) ds = do
  ds' ← set_enabled enable (to_cell i) ds
  if enable
      then waiting name (some (to_cell i)) ds'
      else done (record { state = ds'; reply = returns (pos 0) })

unfoldable pub ds_set : Bsearch → Bool → Bool → List ℕ → Bool → DsGlobal → Exec Section
ds_set bsearch grows served name enable ds = do
  (got, pt) ← acquire bsearch grows served name ds
  set_point name enable pt got

unfoldable pub ds_wait : List ℕ → DsGlobal → Exec Section
ds_wait name ds = waiting name none ds

unfoldable pub ds_signal : List ℕ → DsGlobal → Section
ds_signal name ds = record {
  state = record ds { signal = take ds_maxlen name };
  reply = returns (pos 0);
}
