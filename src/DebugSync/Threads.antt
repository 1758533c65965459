-- ===== src/DebugSync/Threads.antt =====
-- Threads that call debugsync/debugsync.c: the functions of the interface as sections under the
-- mutex, in any order. The flags are read outside the mutex, in a step of their own.
use bsl45_misc_tools.Prelude.{ℕ, ◌≡◌, List, map, Bool, true, false, some, get_elem?, set}
use bsl45_misc_tools.DebugSync.Points.{DsGlobal, local_inactive, do_activate}
use bsl45_misc_tools.DebugSync.Calls.{
  Side, Reply, returns, sleeps, aborts, Section, ds_disable_all, ds_activate, ds_enable, ds_exec,
  ds_wait, ds_unblock, resume,
}

-- The calls, with whether `strndup` has memory.
pub data Call : Type 0 where
  disable_all_call : Call
  activate_call : Bool → Call
  enable_call : List ℕ → Bool → Call
  exec_call wait_call : Bool → List ℕ → Call
  unblock_call : List ℕ → Call

-- A broadcast on a condition that was initialised succeeds, and so does a wait.
unfoldable pub locked : Call → DsGlobal → Section
locked disable_all_call = ds_disable_all
locked (activate_call activate) = ds_activate activate
locked (enable_call name enable) = ds_enable 0 name enable
locked (exec_call has_memory name) = ds_exec 0 has_memory name
locked (wait_call has_memory name) = ds_wait has_memory name
locked (unblock_call name) = ds_unblock 0 name

-- `entering` is between the read of the flags and the mutex; `ready` is woken and has the mutex yet
-- to take.
pub data Thread : Type 0 where
  outside stopped : Thread
  entering : Call → Thread
  asleep ready : Side → ℕ → Thread

abbrev pub wake : Thread → Thread
wake outside = outside
wake stopped = stopped
wake (entering c) = entering c
wake (asleep side i) = ready side i
wake (ready side i) = ready side i

unfoldable pub wake_if : Bool → List Thread → List Thread
wake_if true threads = map wake threads
wake_if false threads = threads

abbrev pub after_reply : Reply → Thread
after_reply (returns rc) = outside
after_reply (sleeps side i) = asleep side i
after_reply aborts = stopped

pub record System : Type 0 where
  pub ds : DsGlobal
  pub threads : List Thread

abbrev pub system : DsGlobal → List Thread → System
system ds threads = record { ds = ds; threads = threads }

-- Thread `t` runs a section.
abbrev pub ran : ℕ → Section → List Thread → System
ran t s threads = system s.state (set (wake_if s.woken threads) t (after_reply s.reply))

pub data Step : System → System → Type 0 where
  enters :
      (ds : DsGlobal) (threads : List Thread) (t : ℕ) (call : Call)
      → get_elem? threads t ≡ some outside
      → local_inactive ds ≡ false
      → Step (system ds threads) (system ds (set threads t (entering call)))
  activates :
      (ds : DsGlobal) (threads : List Thread) (t : ℕ)
      → get_elem? threads t ≡ some outside
      → local_inactive ds ≡ true
      → Step (system ds threads) (system (do_activate true ds) threads)
  deactivates :
      (ds : DsGlobal) (threads : List Thread) (t : ℕ)
      → get_elem? threads t ≡ some outside
      → local_inactive ds ≡ true
      → Step (system ds threads) (system ds (set threads t (entering (activate_call false))))
  takes_lock :
      (ds : DsGlobal) (threads : List Thread) (t : ℕ) (call : Call)
      → get_elem? threads t ≡ some (entering call)
      → Step (system ds threads) (ran t (locked call ds) threads)
  resumes :
      (ds : DsGlobal) (threads : List Thread) (t : ℕ) (side : Side) (i : ℕ)
      → get_elem? threads t ≡ some (ready side i)
      → Step (system ds threads) (ran t (resume side 0 i ds) threads)
  wakes_up :
      (ds : DsGlobal) (threads : List Thread) (t : ℕ) (side : Side) (i : ℕ)
      → get_elem? threads t ≡ some (asleep side i)
      → Step (system ds threads) (system ds (set threads t (ready side i)))

-- What a number of steps leads to.
pub data Steps : System → System → Type 0 where
  stays : (s : System) → Steps s s
  then_step : (s t u : System) → Steps s t → Step t u → Steps s u
