-- ===== src/Wal/Turns.antt =====
-- The writer of wal/wbuft.c and the thread that syncs, step by step, as a sequence of events.
use bsl45_misc_tools.Prelude.{ℕ, suc, List, [], ◌∷◌, Bool, ℤ, Exec, done, ◌>>=◌}
use bsl45_misc_tools.Wal.Sync.{
  SyncCall, SyncState, g_st, do_sync, Thread, waiting, exited, thread_round, stop_sync_thread,
}

-- The writer syncs after a write, or stops the thread; the thread has its turn, and `failed` says
-- whether its call of the system fails.
pub data Event : Type 0 where
  written stopped : Event
  turn : (failed : Bool) → Event

-- The shared order, the thread, and the calls made so far.
pub record Process : Type 0 where
  pub g : SyncState
  pub thread : Thread
  pub calls : List SyncCall

unfoldable pub step : ℤ → ℕ → Event → Process → Exec Process
step fd flags written r = do
  (g, calls) ← do_sync fd flags r.g r.calls
  done (record r { g = g; calls = calls })
step fd flags stopped r = done (record r { g = stop_sync_thread r.g })
step fd flags (turn failed) r = elim (r.thread) [
  | exited nsync ↦ done r
  | waiting nsync ↦ do
    (g, thread, calls) ← thread_round failed r.g nsync r.calls
    done (record { g = g; thread = thread; calls = calls })
]

unfoldable pub steps : ℤ → ℕ → List Event → Process → Exec Process
steps fd flags [] r = done r
steps fd flags (e ∷ events) r = step fd flags e r >>= λ r'. steps fd flags events r'

-- The process when the thread has just been started.
abbrev pub started : Process
started = record { g = g_st; thread = waiting 0; calls = [] }

-- How many writes there are.
abbrev pub writes : List Event → ℕ
writes [] = 0
writes (written ∷ events) = suc (writes events)
writes (stopped ∷ events) = writes events
writes (turn failed ∷ events) = writes events
