-- ===== src/DebugSync/Effects.antt =====
-- Each section of debugsync/debugsync.c is safe for the threads that sleep.
use bsl45_misc_tools.Prelude.{
  ℕ, zero, suc, ◌<◌, ◌≡◌, refl, ap, List, Bool, true, false, ◌&&◌, some, get_elem?, set, All,
  All-get_elem?, All-set, get_elem?-lt, get_elem?-set_self, false≢true, true≢false, arith, sym, ◌∙◌,
  ℤ, pos, ◌-◌,
}
use bsl45_misc_tools.DebugSync.Points.{DsPoint, DsGlobal, set_syncwait}
use bsl45_misc_tools.DebugSync.Calls.{
  section, returns, put_point, exec_loop, exec_at, wait_loop, wait_at, unblock_at, enable_at,
}
use bsl45_misc_tools.DebugSync.Blocked.{
  held, raised, HasWaiters, Unnoticed, AllUnnoticed, IsSafe, AllUnnoticed-refl, AllUnnoticed-trans,
  set-AllUnnoticed,
}

-- A point by its fields.
abbrev pt_of : List ℕ → Bool → Bool → ℕ → DsPoint
pt_of name is_enabled in_syncwait nblocked = record {
  name = name;
  is_enabled = is_enabled;
  in_syncwait = in_syncwait;
  nblocked = nblocked;
}

held-enabled : (e s : Bool) → (s && e) ≡ true → (s && true) ≡ true
held-enabled e true k = refl
held-enabled e false k = k

-- A section that changes nothing and does not sleep.
pub unchanged-IsSafe :
    (ds : DsGlobal) (rc : ℤ)
    → All HasWaiters ds.point
    → IsSafe ds.point (section ds false (returns rc))
unchanged-IsSafe ds rc hp = (hp, ((λ w. AllUnnoticed-refl ds.point), tt))

module _ (base : List DsPoint) (ds : DsGlobal) (i : ℕ) (hp : All HasWaiters ds.point) where
  -- The end of `ds_exec`: a point that holds nobody is released.
  released-IsSafe :
      (woken : Bool) (old : DsPoint) (rc : ℤ)
      → (woken ≡ false → AllUnnoticed base ds.point)
      → get_elem? ds.point i ≡ some old
      → held (some old) ≡ false
      → IsSafe base (section (put_point ds i (set_syncwait false old)) woken (returns rc))
  released-IsSafe woken old rc quiet e h = (
    All-set HasWaiters ds.point i (set_syncwait false old) hp (λ k. absurd (false≢true k)),
    (
      (λ w. AllUnnoticed-trans base ds.point (set ds.point i (set_syncwait false old)) (quiet w) (
          set-AllUnnoticed ds.point i old (set_syncwait false old) e
            ((λ k. refl), λ k. absurd (false≢true (sym h ∙ k))))),
      tt,
    ),
  )

  pub exec_loop-IsSafe :
      (woken : Bool) (name : List ℕ) (is_enabled in_syncwait : Bool) (nblocked : ℕ)
      → (woken ≡ false → AllUnnoticed base ds.point)
      → get_elem? ds.point i ≡ some (pt_of name is_enabled in_syncwait nblocked)
      → IsSafe base (exec_loop 0 woken i (pt_of name is_enabled in_syncwait nblocked) ds)
  unfolding exec_loop
  exec_loop-IsSafe woken name true true nblocked quiet e = (hp, (quiet, ap held e))
  exec_loop-IsSafe woken name true false nblocked quiet e =
      released-IsSafe woken (pt_of name true false nblocked) (pos 0) quiet e refl
  exec_loop-IsSafe woken name false true nblocked quiet e =
      released-IsSafe woken (pt_of name false true nblocked) (pos 0) quiet e refl
  exec_loop-IsSafe woken name false false nblocked quiet e =
      released-IsSafe woken (pt_of name false false nblocked) (pos 0) quiet e refl

  pub wait_loop-IsSafe :
      (name : List ℕ) (is_enabled in_syncwait : Bool) (nblocked : ℕ)
      → AllUnnoticed base ds.point
      → get_elem? ds.point i ≡ some (pt_of name is_enabled in_syncwait nblocked)
      → IsSafe base (wait_loop 0 i (pt_of name is_enabled in_syncwait nblocked) ds)
  unfolding wait_loop
  wait_loop-IsSafe name true true nblocked quiet e = (hp, ((λ w. quiet), tt))
  wait_loop-IsSafe name true false nblocked quiet e = (hp, ((λ w. quiet), ap raised e))
  wait_loop-IsSafe name false true nblocked quiet e = (hp, ((λ w. quiet), tt))
  wait_loop-IsSafe name false false nblocked quiet e = (hp, ((λ w. quiet), tt))

module _ (ds : DsGlobal) (i : ℕ) (hp : All HasWaiters ds.point) where
  -- A write of one point, with what its own sleepers see.
  put-IsSafe :
      (old new : DsPoint) (woken : Bool) (rc : ℤ)
      → get_elem? ds.point i ≡ some old
      → HasWaiters new
      → (woken ≡ false → Unnoticed (some old) (some new))
      → IsSafe ds.point (section (put_point ds i new) woken (returns rc))
  put-IsSafe old new woken rc e h u = (
    All-set HasWaiters ds.point i new hp h,
    ((λ w. set-AllUnnoticed ds.point i old new e (u w)), tt),
  )

  put_self :
      (old new : DsPoint)
      → get_elem? ds.point i ≡ some old
      → get_elem? (set ds.point i new) i ≡ some new
  put_self old new e = get_elem?-set_self ds.point i new (get_elem?-lt ds.point i old e)

  -- Past the first tests of `ds_exec`: the point is raised, and all are woken.
  raise-IsSafe :
      (name : List ℕ) (is_enabled in_syncwait : Bool) (n : ℕ)
      → get_elem? ds.point i ≡ some (pt_of name is_enabled in_syncwait (suc n))
      → IsSafe ds.point (
          exec_loop 0 true i
            (pt_of name is_enabled true (suc n))
            (put_point ds i (pt_of name is_enabled true (suc n))))
  raise-IsSafe name is_enabled in_syncwait n e =
      exec_loop-IsSafe ds.point (put_point ds i (pt_of name is_enabled true (suc n))) i
        (All-set HasWaiters ds.point i (pt_of name is_enabled true (suc n)) hp (λ k. omega arith))
        true name is_enabled true (suc n) (λ w. absurd (true≢false w))
        (put_self (pt_of name is_enabled in_syncwait (suc n)) (pt_of name is_enabled true (suc n))
          e)

  pub exec_at-IsSafe :
      (name : List ℕ) (is_enabled in_syncwait : Bool) (nblocked : ℕ)
      → get_elem? ds.point i ≡ some (pt_of name is_enabled in_syncwait nblocked)
      → IsSafe ds.point (exec_at 0 i (some (pt_of name is_enabled in_syncwait nblocked)) ds)
  exec_at-IsSafe name true true nblocked e = unchanged-IsSafe ds (pos 0) hp
  exec_at-IsSafe name true false zero e = unchanged-IsSafe ds (pos 0) hp
  exec_at-IsSafe name false true zero e = unchanged-IsSafe ds (pos 0) hp
  exec_at-IsSafe name false false zero e = unchanged-IsSafe ds (pos 0) hp
  exec_at-IsSafe name true false (suc n) e = raise-IsSafe name true false n e
  exec_at-IsSafe name false true (suc n) e = raise-IsSafe name false true n e
  exec_at-IsSafe name false false (suc n) e = raise-IsSafe name false false n e

  pub wait_at-IsSafe :
      (name : List ℕ) (is_enabled in_syncwait : Bool) (n : ℕ)
      → get_elem? ds.point i ≡ some (pt_of name is_enabled in_syncwait n)
      → IsSafe ds.point (wait_at i (some (pt_of name is_enabled in_syncwait n)) ds)
  wait_at-IsSafe name is_enabled in_syncwait n e =
      let old = pt_of name is_enabled in_syncwait n in
      let new = pt_of name is_enabled in_syncwait (suc n) in
      wait_loop-IsSafe ds.point (put_point ds i new) i
        (All-set HasWaiters ds.point i new hp (λ k. omega arith)) name is_enabled in_syncwait
        (suc n) (set-AllUnnoticed ds.point i old new e ((λ k. k), λ k. k)) (put_self old new e)

  pub unblock_at-IsSafe :
      (name : List ℕ) (is_enabled in_syncwait : Bool) (n : ℕ)
      → get_elem? ds.point i ≡ some (pt_of name is_enabled in_syncwait n)
      → IsSafe ds.point (unblock_at 0 i (some (pt_of name is_enabled in_syncwait n)) ds)
  unblock_at-IsSafe name is_enabled in_syncwait zero e =
      (hp, ((λ w. AllUnnoticed-refl ds.point), tt))
  unblock_at-IsSafe name is_enabled in_syncwait (suc zero) e =
      put-IsSafe (pt_of name is_enabled in_syncwait 1) (pt_of name is_enabled false 0) true (pos 0)
        e (λ k. absurd (false≢true k)) (λ w. absurd (true≢false w))
  unblock_at-IsSafe name is_enabled in_syncwait (suc (suc n)) e =
      let less : suc (suc n) - 1 ≡ suc n = omega arith in
      rw less (
        put-IsSafe (pt_of name is_enabled in_syncwait (suc (suc n)))
          (pt_of name is_enabled in_syncwait (suc n)) false (pos 0) e (λ k. omega arith)
          (λ w. ((λ k. k), λ k. k)))

  -- Nobody waits at a point that is disabled with no broadcast, so that nobody holds it.
  pub enable_at-IsSafe :
      (enable : Bool) (name : List ℕ) (is_enabled in_syncwait : Bool) (n : ℕ)
      → get_elem? ds.point i ≡ some (pt_of name is_enabled in_syncwait n)
      → IsSafe ds.point (enable_at 0 enable i (some (pt_of name is_enabled in_syncwait n)) ds)
  enable_at-IsSafe true name is_enabled in_syncwait n e =
      let old = pt_of name is_enabled in_syncwait n in
      put-IsSafe old (pt_of name true in_syncwait n) false (pos 0) e
        (All-get_elem? HasWaiters ds.point i old hp e)
        (λ w. ((λ k. k), held-enabled is_enabled in_syncwait))
  enable_at-IsSafe false name is_enabled true zero e =
      let none_wait : 0 < 0 =
        All-get_elem? HasWaiters ds.point i (pt_of name is_enabled true zero) hp e refl in
      absurd (omega arith)
  enable_at-IsSafe false name is_enabled false zero e =
      put-IsSafe (pt_of name is_enabled false zero) (pt_of name false false zero) false (pos 0) e
        (λ k. absurd (false≢true k)) (λ w. ((λ k. k), λ k. k))
  enable_at-IsSafe false name is_enabled in_syncwait (suc n) e =
      put-IsSafe (pt_of name is_enabled in_syncwait (suc n)) (pt_of name false in_syncwait (suc n))
        true (pos 0) e (λ k. omega arith) (λ w. absurd (true≢false w))
