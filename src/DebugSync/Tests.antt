-- ===== src/DebugSync/Tests.antt =====
-- Concrete runs of debugsync/debugsync.c, and the instances of the theorems.
use bsl45_misc_tools.Prelude.{
  ℕ, ◌<◌, ◌≡◌, refl, List, [], ◌∷◌, Bool, true, false, some, get_elem?, replicate, arith, negsuc,
}
use bsl45_misc_tools.DebugSync.Points.{
  DsPoint, DsGlobal, local_inactive, inactive, look_up, same_name, acquire, create_new, strndup,
}
use bsl45_misc_tools.DebugSync.Calls.{
  waiter, holder, ds_init, ds_wait, ds_exec, wait_loop, exec_loop, returns, sleeps,
}
use bsl45_misc_tools.DebugSync.Threads.{
  outside, entering, asleep, ready, wait_call, exec_call, locked, wake_if, System, system, enters,
  takes_lock, Steps, stays, then_step,
}
use bsl45_misc_tools.DebugSync.Blocked.{raised, held}
use bsl45_misc_tools.DebugSync.Runs.{started, exec_asleep-held, wait_asleep-raised, held-nblocked}
use bsl45_misc_tools.DebugSync.Names.{look_up-acquire}

-- One point, named "a".
abbrev one_point : Bool → Bool → ℕ → DsGlobal
one_point is_enabled in_syncwait nblocked = record {
  activation = 1;
  point =
      record {
        name = 97 ∷ [];
        is_enabled = is_enabled;
        in_syncwait = in_syncwait;
        nblocked = nblocked;
      }
      ∷ [];
}

abbrev waits : System
waits = system (one_point true false 1) (asleep waiter 0 ∷ outside ∷ [])

abbrev holds : System
holds = system (one_point true true 1) (ready waiter 0 ∷ asleep holder 0 ∷ [])

-- The first thread waits for "a".
run_waits : Steps (started 1 2) waits
unfolding local_inactive inactive locked ds_init ds_wait acquire look_up create_new strndup
    wait_loop wake_if
run_waits =
    then_step (started 1 2)
      (system (ds_init 1) (entering (wait_call true (97 ∷ [])) ∷ outside ∷ [])) waits
      (then_step (started 1 2) (started 1 2) _ (stays (started 1 2))
        (enters (ds_init 1) (replicate 2 outside) 0 (wait_call true (97 ∷ [])) refl refl))
      (takes_lock (ds_init 1) (entering (wait_call true (97 ∷ [])) ∷ outside ∷ []) 0
        (wait_call true (97 ∷ [])) refl)

-- Then the second passes through "a", and holds.
run_holds : Steps (started 1 2) holds
unfolding local_inactive inactive locked ds_exec acquire look_up same_name exec_loop wake_if
run_holds =
    then_step (started 1 2)
      (system (one_point true false 1) (asleep waiter 0 ∷ entering (exec_call true (97 ∷ [])) ∷ []))
      holds
      (then_step (started 1 2) waits _ run_waits (
        enters (one_point true false 1) (asleep waiter 0 ∷ outside ∷ []) 1
          (exec_call true (97 ∷ [])) refl refl))
      (takes_lock (one_point true false 1)
        (asleep waiter 0 ∷ entering (exec_call true (97 ∷ [])) ∷ []) 1 (exec_call true (97 ∷ []))
        refl)

exec_asleep-held_example : held (get_elem? ((one_point true true 1).point) 0) ≡ true
exec_asleep-held_example = exec_asleep-held 1 2 holds 1 0 run_holds refl

wait_asleep-raised_example : raised (get_elem? ((one_point true false 1).point) 0) ≡ false
wait_asleep-raised_example = wait_asleep-raised 1 2 waits 0 0 run_waits refl

abbrev held_point : DsPoint
held_point = record { name = 97 ∷ []; is_enabled = true; in_syncwait = true; nblocked = 1 }

held-nblocked_example : 0 < 1
held-nblocked_example = held-nblocked 1 2 holds 0 held_point run_holds refl refl

-- A name of 33 letters, and the point that is created for it.
abbrev long_name : List ℕ
long_name = replicate 33 97

new_a : acquire true (ds_init 1) (97 ∷ []) ≡ some (one_point true false 0, 0)
unfolding acquire look_up create_new strndup ds_init
new_a = refl

look_up-acquire_example : look_up ((one_point true false 0).point) (97 ∷ []) ≡ some 0
look_up-acquire_example =
    look_up-acquire true (ds_init 1) (one_point true false 0) (97 ∷ []) 0 (omega arith) new_a

-- A wait at a point that was disabled is not counted back: after the failed wait, a call of `ds_exec`
-- on the point, enabled again, sleeps although nobody waits.
failed_wait :
    wait_loop 0 0
      (record { name = 97 ∷ []; is_enabled = false; in_syncwait = false; nblocked = 1 })
      (one_point false false 1)
    ≡ record { state = one_point false false 1; woken = false; reply = returns (negsuc 0) }
unfolding wait_loop
failed_wait = refl

sleeps_for_nobody :
    ds_exec 0 true (97 ∷ []) (one_point true false 1)
    ≡ record { state = one_point true true 1; woken = true; reply = sleeps holder 0 }
unfolding ds_exec inactive acquire look_up same_name exec_loop
sleeps_for_nobody = refl
