-- ===== src/Wal/Sync.antt =====
-- The synchronisation of the file in wal/wbuft.c: at once, or by a thread that is told to.
use bsl45_misc_tools.Prelude.{
  ℕ, suc, List, [], ◌∷◌, ◌++◌, Bool, true, false, ◌&&◌, ◌==◌, if◌then◌else◌, ℤ, negsuc, bit_and,
  Exec, done, abort, ◌>>=◌,
}
use bsl45_misc_tools.Wal.Options.{sync_type, sync_all, sync_data, sync_thread}

-- What the thread is told.
pub data Order : Type 0 where
  quit wait sync : Order

-- A call of the system on a descriptor, which is -1 where there is none.
pub data SyncCall : Type 0 where
  fsync fdatasync : ℤ → SyncCall

-- `struct sync_state` without the mutex and the condition.
pub record SyncState : Type 0 where
  pub state : Order
  pub fd : ℤ
  pub flags : ℕ

-- `g_st` at the start.
abbrev pub g_st : SyncState
g_st = record { state = wait; fd = negsuc 0; flags = 0 }

-- The calls that `fd_sync` makes of the system; it has no other result where they succeed.
unfoldable pub fd_sync : ℤ → ℕ → Exec (List SyncCall)
fd_sync fd flags =
    let kind = bit_and flags sync_type in
    if kind == 0
    then done []
    else if kind == sync_all
    then done (fsync fd ∷ [])
    else if kind == sync_data
    then done (fdatasync fd ∷ [])
    else abort

-- The order replaces whatever order was given before.
unfoldable pub toggle_sync_thread : ℤ → ℕ → Order → SyncState → SyncState
toggle_sync_thread fd flags state g = record { state = state; fd = fd; flags = flags }

-- The state of the thread that syncs, and the calls made so far, by anyone.
unfoldable pub do_sync : ℤ → ℕ → SyncState → List SyncCall → Exec (SyncState × List SyncCall)
do_sync fd flags g calls =
    if bit_and flags sync_thread == 0
    then (do made ← fd_sync fd flags; done (g, calls ++ made))
    else done (toggle_sync_thread fd flags sync g, calls)

-- The thread: it waits at the condition, or it has exited, with how many rounds it has counted.
pub data Thread : Type 0 where
  waiting exited : ℕ → Thread

abbrev pub any : List SyncCall → Bool
any [] = false
any (call ∷ calls) = true

-- The rest of a round of `thread_run`, after its call of `fd_sync`, which has failed or not. A round
-- with nothing to do goes back to the wait.
unfoldable pub after_sync : Bool → Order → SyncState → ℕ → SyncState × Thread
after_sync true order g nsync = (g, exited nsync)
after_sync false quit g nsync = (g, exited (suc nsync))
after_sync false wait g nsync = (g, waiting nsync)
after_sync false sync g nsync = (record g { state = wait }, waiting (suc nsync))

-- One round of `thread_run` from the wait on, with the mutex held. `failed` says whether the call of
-- the system fails, if there is one.
unfoldable pub thread_round :
    Bool → SyncState → ℕ → List SyncCall → Exec (SyncState × Thread × List SyncCall)
thread_round failed g nsync calls = elim (g.state) [
  | wait ↦ done (g, waiting nsync, calls)
  | sync ↦ do
    made ← fd_sync g.fd g.flags
    let next = after_sync (failed && any made) sync g nsync
    done (next.0, next.1, calls ++ made)
  | quit ↦ do
    made ← fd_sync g.fd g.flags
    let next = after_sync (failed && any made) quit g nsync
    done (next.0, next.1, calls ++ made)
]

-- `stop_sync_thread` tells the thread to quit, and waits for it.
unfoldable pub stop_sync_thread : SyncState → SyncState
stop_sync_thread g = toggle_sync_thread (negsuc 0) 0 quit g
