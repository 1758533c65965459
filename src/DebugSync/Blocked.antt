-- ===== src/DebugSync/Blocked.antt =====
-- What a thread that sleeps in debugsync/debugsync.c waits for, in terms of its point, and what is
-- true of the points between the sections.
use bsl45_misc_tools.Prelude.{
  ℕ, zero, suc, ◌<◌, ◌≡◌, subst, sym, List, [], ◌∷◌, ◌++◌, Bool, true, false, ◌&&◌, Option, none,
  some, get_elem?, set, All, some-injective, false≢true,
}
use bsl45_misc_tools.DebugSync.Points.{DsPoint}
use bsl45_misc_tools.DebugSync.Calls.{Section, waiter, holder}
use bsl45_misc_tools.DebugSync.Threads.{
  Thread, outside, stopped, entering, asleep, ready, after_reply,
}

-- The point is held by a call of `ds_exec`.
abbrev pub raised : Option DsPoint → Bool
raised none = false
raised (some pt) = pt.in_syncwait

-- The point keeps a call of `ds_exec` asleep.
abbrev pub held : Option DsPoint → Bool
held none = false
held (some pt) = pt.in_syncwait && pt.is_enabled

-- Only a point with waiters is held.
abbrev pub HasWaiters : DsPoint → Type 0
HasWaiters pt = pt.in_syncwait ≡ true → 0 < pt.nblocked

-- A thread sleeps for a reason: in `ds_wait` as its point is not held, in `ds_exec` as its point is
-- held and enabled.
abbrev pub IsCalm : List DsPoint → Thread → Type 0
IsCalm points outside = Unit
IsCalm points stopped = Unit
IsCalm points (entering call) = Unit
IsCalm points (ready side i) = Unit
IsCalm points (asleep waiter i) = raised (get_elem? points i) ≡ false
IsCalm points (asleep holder i) = held (get_elem? points i) ≡ true

-- No sleeper has anything to notice in the change from the first state of a point to the second.
abbrev pub Unnoticed : Option DsPoint → Option DsPoint → Type 0
Unnoticed old new = (raised old ≡ false → raised new ≡ false) × (held old ≡ true → held new ≡ true)

abbrev pub AllUnnoticed : List DsPoint → List DsPoint → Type 0
AllUnnoticed old new = (j : ℕ) → Unnoticed (get_elem? old j) (get_elem? new j)

-- A section that starts from `points` leaves the points well formed, wakes all sleepers or changes
-- nothing that they would notice, and sleeps for a reason itself.
abbrev pub IsSafe : List DsPoint → Section → Type 0
IsSafe points s =
    All HasWaiters s.state.point
    × ((s.woken ≡ false → AllUnnoticed points s.state.point)
        × IsCalm s.state.point (after_reply s.reply))

pub AllUnnoticed-refl : (points : List DsPoint) → AllUnnoticed points points
AllUnnoticed-refl points j = ((λ h. h), λ h. h)

pub AllUnnoticed-trans :
    (old mid new : List DsPoint)
    → AllUnnoticed old mid
    → AllUnnoticed mid new
    → AllUnnoticed old new
AllUnnoticed-trans old mid new h k j = ((λ e. (k j).0 ((h j).0 e)), λ e. (k j).1 ((h j).1 e))

-- A change of one point that its own sleepers do not notice is noticed by none.
pub set-AllUnnoticed :
    (points : List DsPoint) (i : ℕ) (old new : DsPoint)
    → get_elem? points i ≡ some old
    → Unnoticed (some old) (some new)
    → AllUnnoticed points (set points i new)
set-AllUnnoticed [] i old new e h j = ((λ k. k), λ k. k)
set-AllUnnoticed (x ∷ points) zero old new e h zero =
    subst (λ pt. Unnoticed (some pt) (some new)) (sym (some-injective x old e)) h
set-AllUnnoticed (x ∷ points) zero old new e h (suc j) = ((λ k. k), λ k. k)
set-AllUnnoticed (x ∷ points) (suc i) old new e h zero = ((λ k. k), λ k. k)
set-AllUnnoticed (x ∷ points) (suc i) old new e h (suc j) = set-AllUnnoticed points i old new e h j

pub append-AllUnnoticed :
    (points : List DsPoint) (pt : DsPoint)
    → pt.in_syncwait ≡ false
    → AllUnnoticed points (points ++ pt ∷ [])
append-AllUnnoticed [] pt h zero = ((λ k. h), λ k. absurd (false≢true k))
append-AllUnnoticed [] pt h (suc j) = ((λ k. k), λ k. k)
append-AllUnnoticed (x ∷ points) pt h zero = ((λ k. k), λ k. k)
append-AllUnnoticed (x ∷ points) pt h (suc j) = append-AllUnnoticed points pt h j

-- What is calm stays so through an unnoticed change.
pub IsCalm-AllUnnoticed :
    (old new : List DsPoint) (thread : Thread)
    → AllUnnoticed old new
    → IsCalm old thread
    → IsCalm new thread
IsCalm-AllUnnoticed old new outside h c = tt
IsCalm-AllUnnoticed old new stopped h c = tt
IsCalm-AllUnnoticed old new (entering call) h c = tt
IsCalm-AllUnnoticed old new (ready side i) h c = tt
IsCalm-AllUnnoticed old new (asleep waiter i) h c = (h i).0 c
IsCalm-AllUnnoticed old new (asleep holder i) h c = (h i).1 c
