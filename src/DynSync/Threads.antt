-- ===== src/DynSync/Threads.antt =====
-- Threads that call debugsync/debugsync_dyn.c: the functions of the interface as sections under the
-- mutex, in any order. A call that faults is no step: the program has no behaviour from there on.
use bsl45_misc_tools.Prelude.{ℕ, ◌≡◌, ◌≢◌, List, Bool, Option, some, done, get_elem?, set}
use bsl45_misc_tools.DynSync.Points.{DsGlobal, Pointer, Bsearch}
use bsl45_misc_tools.DynSync.Calls.{
  Reply, returns, sleeps, Section, ds_set, ds_wait, ds_signal, waiting,
}

-- `asleep` is in `pthread_cond_wait`, and `ready` is woken and has the mutex yet to take.
pub data Thread : Type 0 where
  outside : Thread
  asleep ready : List ℕ → Option Pointer → Thread

abbrev pub after_reply : Reply → Thread
after_reply (returns rc) = outside
after_reply (sleeps name pt) = asleep name pt

pub record System : Type 0 where
  pub ds : DsGlobal
  pub threads : List Thread

abbrev pub system : DsGlobal → List Thread → System
system ds threads = record { ds = ds; threads = threads }

-- Thread `t` has run a section.
abbrev pub ran : ℕ → Section → List Thread → System
ran t s threads = system s.state (set threads t (after_reply s.reply))

-- `pthread_cond_signal` wakes a sleeper, whichever it is, if there is one; more of them can wake with
-- it, and a thread can wake without it.
pub data Step (bsearch : Bsearch) : System → System → Type 0 where
  sets :
      (ds : DsGlobal) (threads : List Thread) (t : ℕ) (grows served : Bool) (name : List ℕ)
      (enable : Bool) (s : Section)
      → get_elem? threads t ≡ some outside
      → ds_set bsearch grows served name enable ds ≡ done s
      → Step bsearch (system ds threads) (ran t s threads)
  waits :
      (ds : DsGlobal) (threads : List Thread) (t : ℕ) (name : List ℕ) (s : Section)
      → get_elem? threads t ≡ some outside
      → ds_wait name ds ≡ done s
      → Step bsearch (system ds threads) (ran t s threads)
  signals :
      (ds : DsGlobal) (threads : List Thread) (t u : ℕ) (name other : List ℕ) (pt : Option Pointer)
      → get_elem? threads t ≡ some outside
      → get_elem? threads u ≡ some (asleep other pt)
      → Step bsearch
          (system ds threads)
          (ran t (ds_signal name ds) (set threads u (ready other pt)))
  signals_nobody :
      (ds : DsGlobal) (threads : List Thread) (t : ℕ) (name : List ℕ)
      → get_elem? threads t ≡ some outside
      → ((u : ℕ) (other : List ℕ) (pt : Option Pointer)
          → get_elem? threads u ≢ some (asleep other pt))
      → Step bsearch (system ds threads) (ran t (ds_signal name ds) threads)
  wakes_up :
      (ds : DsGlobal) (threads : List Thread) (t : ℕ) (name : List ℕ) (pt : Option Pointer)
      → get_elem? threads t ≡ some (asleep name pt)
      → Step bsearch (system ds threads) (system ds (set threads t (ready name pt)))
  resumes :
      (ds : DsGlobal) (threads : List Thread) (t : ℕ) (name : List ℕ) (pt : Option Pointer)
      (s : Section)
      → get_elem? threads t ≡ some (ready name pt)
      → waiting name pt ds ≡ done s
      → Step bsearch (system ds threads) (ran t s threads)

-- What a number of steps leads to.
pub data Steps (bsearch : Bsearch) : System → System → Type 0 where
  stays : (s : System) → Steps bsearch s s
  then_step : (s t u : System) → Steps bsearch s t → Step bsearch t u → Steps bsearch s u
