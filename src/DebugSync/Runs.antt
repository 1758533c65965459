-- ===== src/DebugSync/Runs.antt =====
-- What holds in every state that threads calling debugsync/debugsync.c can reach.
use bsl45_misc_tools.Prelude.{
  ℕ, zero, suc, ◌<◌, ◌≡◌, List, [], ◌∷◌, map, Bool, true, false, some, get_elem?, All,
  All-get_elem?, All-set, replicate, subst, sym, refl,
}
use bsl45_misc_tools.DebugSync.Points.{DsGlobal, DsPoint}
use bsl45_misc_tools.DebugSync.Calls.{Section, ds_init, waiter, holder, resume}
use bsl45_misc_tools.DebugSync.Threads.{
  Thread, outside, stopped, entering, asleep, ready, wake, wake_if, after_reply, System, system,
  ran, Step, enters, activates, deactivates, takes_lock, resumes, wakes_up, Steps, stays, then_step,
  locked,
}
use bsl45_misc_tools.DebugSync.Blocked.{
  raised, held, HasWaiters, IsCalm, AllUnnoticed, IsSafe, IsCalm-AllUnnoticed,
}
use bsl45_misc_tools.DebugSync.Sections.{resume-IsSafe, locked-IsSafe, do_activate-point}

-- The invariant: held points have waiters, and sleepers sleep for a reason.
abbrev IsSound : System → Type 0
IsSound s = All HasWaiters s.ds.point × All (IsCalm s.ds.point) s.threads

-- A woken thread waits for the mutex only.
wake-IsCalm : (points : List DsPoint) (thread : Thread) → IsCalm points (wake thread)
wake-IsCalm points outside = tt
wake-IsCalm points stopped = tt
wake-IsCalm points (entering call) = tt
wake-IsCalm points (asleep side i) = tt
wake-IsCalm points (ready side i) = tt

wake_threads-IsCalm :
    (points : List DsPoint) (threads : List Thread) → All (IsCalm points) (map wake threads)
wake_threads-IsCalm points [] = tt
wake_threads-IsCalm points (thread ∷ threads) =
    (wake-IsCalm points thread, wake_threads-IsCalm points threads)

unnoticed_threads :
    (old new : List DsPoint) (threads : List Thread)
    → AllUnnoticed old new
    → All (IsCalm old) threads
    → All (IsCalm new) threads
unnoticed_threads old new [] h k = tt
unnoticed_threads old new (thread ∷ threads) h k =
    (IsCalm-AllUnnoticed old new thread h k.0, unnoticed_threads old new threads h k.1)

wake_if-IsCalm :
    (old new : List DsPoint) (woken : Bool) (threads : List Thread)
    → (woken ≡ false → AllUnnoticed old new)
    → All (IsCalm old) threads
    → All (IsCalm new) (wake_if woken threads)
unfolding wake_if
wake_if-IsCalm old new true threads h k = wake_threads-IsCalm new threads
wake_if-IsCalm old new false threads h k = unnoticed_threads old new threads (h refl) k

ran-IsSound :
    (ds : DsGlobal) (threads : List Thread) (t : ℕ) (s : Section)
    → IsSafe ds.point s
    → All (IsCalm ds.point) threads
    → IsSound (ran t s threads)
ran-IsSound ds threads t s h k = (
  h.0,
  All-set (IsCalm s.state.point) (wake_if s.woken threads) t (after_reply s.reply)
      (wake_if-IsCalm ds.point s.state.point s.woken threads h.1.0 k) h.1.1,
)

Step-IsSound : (s u : System) → Step s u → IsSound s → IsSound u
Step-IsSound _ _ (enters ds threads t call e a) h =
    (h.0, All-set (IsCalm ds.point) threads t (entering call) h.1 tt)
Step-IsSound _ _ (activates ds threads t e a) h =
    subst (λ points. All HasWaiters points × All (IsCalm points) threads)
      (sym (do_activate-point true ds)) h
Step-IsSound _ _ (deactivates ds threads t e a) h =
    (h.0, All-set (IsCalm ds.point) threads t _ h.1 tt)
Step-IsSound _ _ (takes_lock ds threads t call e) h =
    ran-IsSound ds threads t (locked call ds) (locked-IsSafe call ds h.0) h.1
Step-IsSound _ _ (resumes ds threads t side i e) h =
    ran-IsSound ds threads t (resume side 0 i ds) (resume-IsSafe side i ds h.0) h.1
Step-IsSound _ _ (wakes_up ds threads t side i e) h =
    (h.0, All-set (IsCalm ds.point) threads t (ready side i) h.1 tt)

-- After `ds_init`, with `n` threads that are in no call.
abbrev pub started : ℕ → ℕ → System
started activation_flags n = system (ds_init activation_flags) (replicate n outside)

outside-IsCalm : (points : List DsPoint) (n : ℕ) → All (IsCalm points) (replicate n outside)
outside-IsCalm points zero = tt
outside-IsCalm points (suc n) = (tt, outside-IsCalm points n)

started-IsSound : (activation_flags n : ℕ) → IsSound (started activation_flags n)
unfolding ds_init
started-IsSound activation_flags n = (tt, outside-IsCalm [] n)

Steps-IsSound : (s u : System) → Steps s u → IsSound s → IsSound u
Steps-IsSound _ _ (stays s) h = h
Steps-IsSound _ _ (then_step s t u r p) h = Step-IsSound t u p (Steps-IsSound s t r h)

-- No wake-up of `ds_exec` is lost: in every state that threads reach from `ds_init`, a thread that
-- sleeps in `ds_exec` has its point still held and enabled.
pub exec_asleep-held :
    (activation_flags n : ℕ) (s : System) (t i : ℕ)
    → Steps (started activation_flags n) s
    → get_elem? s.threads t ≡ some (asleep holder i)
    → held (get_elem? s.ds.point i) ≡ true
exec_asleep-held activation_flags n s t i r e =
    let h = Steps-IsSound (started activation_flags n) s r (started-IsSound activation_flags n) in
    All-get_elem? (IsCalm s.ds.point) s.threads t (asleep holder i) h.1 e

-- No hold is missed: in every state that threads reach from `ds_init`, the point of a thread that
-- sleeps in `ds_wait` is held by no call of `ds_exec`.
pub wait_asleep-raised :
    (activation_flags n : ℕ) (s : System) (t i : ℕ)
    → Steps (started activation_flags n) s
    → get_elem? s.threads t ≡ some (asleep waiter i)
    → raised (get_elem? s.ds.point i) ≡ false
wait_asleep-raised activation_flags n s t i r e =
    let h = Steps-IsSound (started activation_flags n) s r (started-IsSound activation_flags n) in
    All-get_elem? (IsCalm s.ds.point) s.threads t (asleep waiter i) h.1 e

-- In every state that threads reach from `ds_init`, a point that is held has a wait to answer for.
pub held-nblocked :
    (activation_flags n : ℕ) (s : System) (i : ℕ) (pt : DsPoint)
    → Steps (started activation_flags n) s
    → get_elem? s.ds.point i ≡ some pt
    → pt.in_syncwait ≡ true
    → 0 < pt.nblocked
held-nblocked activation_flags n s i pt r e w =
    let h = Steps-IsSound (started activation_flags n) s r (started-IsSound activation_flags n) in
    All-get_elem? HasWaiters s.ds.point i pt h.0 e w
