-- ===== src/DebugSync/Sections.antt =====
-- Every section that debugsync/debugsync.c runs under the mutex is safe for the threads that sleep.
use bsl45_misc_tools.Prelude.{
  ℕ, zero, suc, ◌<◌, ◌≡◌, refl, List, [], ◌∷◌, Bool, true, false, ◌&&◌, ◌||◌, Option, none, some,
  get_elem?, All, All-append, false≢true, true≢false, arith, Bool-cases, Option-cases, inl, inr,
  pos, not, leb, length,
}
use bsl45_misc_tools.DebugSync.Points.{
  DsPoint, DsGlobal, set_enabled, new_point, with_points, disable_all, acquire, create_new, strndup,
  look_up, do_activate, found_or_new, append_point, ds_max_point_count, ds_max_point_name_len,
  inactive, is_zero,
}
use bsl45_misc_tools.DebugSync.Calls.{
  Section, section, Side, waiter, holder, exec_acquired, exec_at, wait_acquired, wait_at,
  unblock_found, enable_found, resume, ds_disable_all, ds_activate, ds_enable, ds_exec, ds_wait,
  ds_unblock, returns, minus_one,
}
use bsl45_misc_tools.DebugSync.Threads.{
  Call, disable_all_call, activate_call, enable_call, exec_call, wait_call, unblock_call, locked,
}
use bsl45_misc_tools.DebugSync.Blocked.{
  HasWaiters, AllUnnoticed, IsSafe, AllUnnoticed-refl, AllUnnoticed-trans, append-AllUnnoticed,
}
use bsl45_misc_tools.DebugSync.Effects.{
  unchanged-IsSafe, exec_loop-IsSafe, wait_loop-IsSafe, exec_at-IsSafe, wait_at-IsSafe,
  unblock_at-IsSafe, enable_at-IsSafe,
}

-- What `disable_all` leaves well formed, and what it changes with no broadcast.
abbrev IsDisabled : List DsPoint → List DsPoint × Bool → Type 0
IsDisabled points r = All HasWaiters r.0 × (r.1 ≡ false → AllUnnoticed points r.0)

-- The head is not noticed when it does not ask for a broadcast.
disable_one :
    (name : List ℕ) (e s : Bool) (n : ℕ) (rest : Bool)
    → HasWaiters (record { name = name; is_enabled = e; in_syncwait = s; nblocked = n })
    → (e && not (is_zero n) || rest) ≡ false
    → (rest ≡ false) × ((s && e) ≡ true → (s && false) ≡ true)
disable_one name true true zero rest h k = let l : 0 < 0 = h refl in absurd (omega arith)
disable_one name true false zero rest h k = (k, λ c. c)
disable_one name true s (suc n) rest h k = absurd (true≢false k)
disable_one name false true n rest h k = (k, λ c. c)
disable_one name false false n rest h k = (k, λ c. c)

cons_Unnoticed :
    (pt : DsPoint) (old new : List DsPoint)
    → ((pt.in_syncwait && pt.is_enabled) ≡ true → (pt.in_syncwait && false) ≡ true)
    → AllUnnoticed old new
    → AllUnnoticed (pt ∷ old) (set_enabled false pt ∷ new)
cons_Unnoticed pt old new h k zero = ((λ e. e), h)
cons_Unnoticed pt old new h k (suc j) = k j

disable_all-IsDisabled :
    (points : List DsPoint) → All HasWaiters points → IsDisabled points (disable_all points)
unfolding disable_all
disable_all-IsDisabled [] hp = (tt, λ w. AllUnnoticed-refl [])
disable_all-IsDisabled (pt ∷ points) hp =
    let one =
      disable_one pt.name pt.is_enabled pt.in_syncwait pt.nblocked ((disable_all points).1) hp.0 in
    let rest = disable_all-IsDisabled points hp.1 in
    (
      (hp.0, rest.0),
      λ w j. cons_Unnoticed pt points ((disable_all points).0) ((one w).1) (rest.1 ((one w).0)) j,
    )

-- A section on the state that `acquire` leaves.
after_acquire-IsSafe :
    (old : List DsPoint) (ds : DsGlobal) (s : Section)
    → AllUnnoticed old ds.point
    → IsSafe ds.point s
    → IsSafe old s
after_acquire-IsSafe old ds s h k =
    (k.0, ((λ w. AllUnnoticed-trans old ds.point s.state.point h (k.1.0 w)), k.1.1))

-- What a pointer to a point comes with: `acquire` adds at most a point that nobody waits at.
abbrev IsAcquired : DsGlobal → Option (DsGlobal × ℕ) → Type 0
IsAcquired ds none = Unit
IsAcquired ds (some (after, i)) = All HasWaiters after.point × AllUnnoticed ds.point after.point

append_point-IsAcquired :
    (ds : DsGlobal) (o : Option (List ℕ))
    → All HasWaiters ds.point
    → IsAcquired ds (append_point ds o)
append_point-IsAcquired ds none hp = tt
append_point-IsAcquired ds (some name) hp = (
  All-append HasWaiters ds.point (new_point name ∷ []) hp ((λ k. absurd (false≢true k)), tt),
  append-AllUnnoticed ds.point (new_point name) refl,
)

create_new-IsAcquired :
    (has_memory : Bool) (ds : DsGlobal) (name : List ℕ)
    → All HasWaiters ds.point
    → IsAcquired ds (create_new has_memory ds name)
unfolding create_new
create_new-IsAcquired has_memory ds name hp =
    elim (Bool-cases (leb ds_max_point_count (length ds.point))) [
      | inl e ↦ rw e tt
      | inr e ↦ rw e (append_point-IsAcquired ds (strndup has_memory name ds_max_point_name_len) hp)
    ]

found_or_new-IsAcquired :
    (has_memory : Bool) (ds : DsGlobal) (name : List ℕ) (o : Option ℕ)
    → All HasWaiters ds.point
    → IsAcquired ds (found_or_new has_memory ds name o)
found_or_new-IsAcquired has_memory ds name none hp = create_new-IsAcquired has_memory ds name hp
found_or_new-IsAcquired has_memory ds name (some i) hp = (hp, AllUnnoticed-refl ds.point)

exec_acquired-IsSafe :
    (ds : DsGlobal) (o : Option (DsGlobal × ℕ))
    → All HasWaiters ds.point
    → IsAcquired ds o
    → IsSafe ds.point (exec_acquired 0 ds o)
exec_acquired-IsSafe ds none hp h = unchanged-IsSafe ds minus_one hp
exec_acquired-IsSafe ds (some (after, i)) hp h =
    after_acquire-IsSafe ds.point after (exec_at 0 i (get_elem? after.point i) after) h.1
      (elim (Option-cases (get_elem? after.point i)) [
        | inl e ↦ rw e (unchanged-IsSafe after minus_one h.0)
        | inr (pt, e) ↦
            rw e (exec_at-IsSafe after i h.0 pt.name pt.is_enabled pt.in_syncwait pt.nblocked e)
      ])

wait_acquired-IsSafe :
    (ds : DsGlobal) (o : Option (DsGlobal × ℕ))
    → All HasWaiters ds.point
    → IsAcquired ds o
    → IsSafe ds.point (wait_acquired ds o)
wait_acquired-IsSafe ds none hp h = unchanged-IsSafe ds minus_one hp
wait_acquired-IsSafe ds (some (after, i)) hp h =
    after_acquire-IsSafe ds.point after (wait_at i (get_elem? after.point i) after) h.1
      (elim (Option-cases (get_elem? after.point i)) [
        | inl e ↦ rw e (unchanged-IsSafe after minus_one h.0)
        | inr (pt, e) ↦
            rw e (wait_at-IsSafe after i h.0 pt.name pt.is_enabled pt.in_syncwait pt.nblocked e)
      ])

unblock_found-IsSafe :
    (ds : DsGlobal) (o : Option ℕ)
    → All HasWaiters ds.point
    → IsSafe ds.point (unblock_found 0 o ds)
unblock_found-IsSafe ds none hp = unchanged-IsSafe ds minus_one hp
unblock_found-IsSafe ds (some i) hp = elim (Option-cases (get_elem? ds.point i)) [
  | inl e ↦ rw e (unchanged-IsSafe ds minus_one hp)
  | inr (pt, e) ↦
      rw e (unblock_at-IsSafe ds i hp pt.name pt.is_enabled pt.in_syncwait pt.nblocked e)
]

enable_found-IsSafe :
    (ds : DsGlobal) (enable : Bool) (o : Option ℕ)
    → All HasWaiters ds.point
    → IsSafe ds.point (enable_found 0 enable o ds)
enable_found-IsSafe ds enable none hp = unchanged-IsSafe ds minus_one hp
enable_found-IsSafe ds enable (some i) hp = elim (Option-cases (get_elem? ds.point i)) [
  | inl e ↦ rw e (unchanged-IsSafe ds minus_one hp)
  | inr (pt, e) ↦
      rw e (enable_at-IsSafe ds i hp enable pt.name pt.is_enabled pt.in_syncwait pt.nblocked e)
]

pub resume-IsSafe :
    (side : Side) (i : ℕ) (ds : DsGlobal)
    → All HasWaiters ds.point
    → IsSafe ds.point (resume side 0 i ds)
resume-IsSafe waiter i ds hp = elim (Option-cases (get_elem? ds.point i)) [
  | inl e ↦ rw e (unchanged-IsSafe ds minus_one hp)
  | inr (pt, e) ↦ rw e (
      wait_loop-IsSafe ds.point ds i hp pt.name pt.is_enabled pt.in_syncwait pt.nblocked
        (AllUnnoticed-refl ds.point) e)
]
resume-IsSafe holder i ds hp = elim (Option-cases (get_elem? ds.point i)) [
  | inl e ↦ rw e (unchanged-IsSafe ds minus_one hp)
  | inr (pt, e) ↦ rw e (
      exec_loop-IsSafe ds.point ds i hp false pt.name pt.is_enabled pt.in_syncwait pt.nblocked
        (λ w. AllUnnoticed-refl ds.point) e)
]

pub do_activate-point : (b : Bool) (ds : DsGlobal) → (do_activate b ds).point ≡ ds.point
unfolding do_activate
do_activate-point true ds = refl
do_activate-point false ds = refl

-- A section of its own points, but for the activation flags.
IsDisabled-IsSafe :
    (old : List DsPoint) (ds : DsGlobal) (points : List DsPoint) (woken : Bool)
    → ds.point ≡ points
    → IsDisabled old (points, woken)
    → IsSafe old (section ds woken (returns (pos 0)))
IsDisabled-IsSafe old ds points woken e h = rw e (h.0, (h.1, tt))

pub locked-IsSafe :
    (call : Call) (ds : DsGlobal) → All HasWaiters ds.point → IsSafe ds.point (locked call ds)
unfolding locked ds_disable_all ds_activate ds_enable ds_exec ds_wait ds_unblock acquire
locked-IsSafe disable_all_call ds hp = elim (Bool-cases (inactive ds)) [
  | inl e ↦ rw e (unchanged-IsSafe ds (pos 0) hp)
  | inr e ↦ rw e (
      IsDisabled-IsSafe ds.point (with_points ds ((disable_all ds.point).0))
        ((disable_all ds.point).0) ((disable_all ds.point).1) refl
        (disable_all-IsDisabled ds.point hp))
]
locked-IsSafe (activate_call b) ds hp = elim (Bool-cases (inactive ds)) [
  | inl e ↦ rw e (
      IsDisabled-IsSafe ds.point (do_activate b ds) ds.point false (do_activate-point b ds)
        (hp, λ w. AllUnnoticed-refl ds.point))
  | inr e ↦ rw e (
      IsDisabled-IsSafe ds.point (do_activate b (with_points ds ((disable_all ds.point).0)))
        ((disable_all ds.point).0) ((disable_all ds.point).1)
        (do_activate-point b (with_points ds ((disable_all ds.point).0)))
        (disable_all-IsDisabled ds.point hp))
]
locked-IsSafe (enable_call name b) ds hp = elim (Bool-cases (inactive ds)) [
  | inl e ↦ rw e (unchanged-IsSafe ds minus_one hp)
  | inr e ↦ rw e (enable_found-IsSafe ds b (look_up ds.point name) hp)
]
locked-IsSafe (exec_call m name) ds hp = elim (Bool-cases (inactive ds)) [
  | inl e ↦ rw e (unchanged-IsSafe ds minus_one hp)
  | inr e ↦ rw e (
      exec_acquired-IsSafe ds (found_or_new m ds name (look_up ds.point name)) hp
        (found_or_new-IsAcquired m ds name (look_up ds.point name) hp))
]
locked-IsSafe (wait_call m name) ds hp = elim (Bool-cases (inactive ds)) [
  | inl e ↦ rw e (unchanged-IsSafe ds minus_one hp)
  | inr e ↦ rw e (
      wait_acquired-IsSafe ds (found_or_new m ds name (look_up ds.point name)) hp
        (found_or_new-IsAcquired m ds name (look_up ds.point name) hp))
]
locked-IsSafe (unblock_call name) ds hp = elim (Bool-cases (inactive ds)) [
  | inl e ↦ rw e (unchanged-IsSafe ds minus_one hp)
  | inr e ↦ rw e (unblock_found-IsSafe ds (look_up ds.point name) hp)
]
