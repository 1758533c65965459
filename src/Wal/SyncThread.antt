-- ===== src/Wal/SyncThread.antt =====
-- What the thread of wal/wbuft.c that syncs comes to, wherever its turns fall between the writes.
use bsl45_misc_tools.Prelude.{
  ℕ, zero, suc, ◌+◌, ◌%◌, ◌≤◌, ◌≡◌, ◌≢◌, refl, ◌∙◌, ap, List, [], ◌∷◌, ◌++◌, Bool, true, false,
  ◌&&◌, ◌==◌, ℤ, negsuc, bit_and, done, length, length-append, replicate, arith, append-nil,
}
use bsl45_misc_tools.Wal.Options.{sync_thread}
use bsl45_misc_tools.Wal.Sync.{
  Order, quit, wait, sync, SyncCall, fdatasync, SyncState, fd_sync, toggle_sync_thread, do_sync,
  Thread, waiting, exited, after_sync, thread_round, stop_sync_thread,
}
use bsl45_misc_tools.Wal.Rounds.{fd_sync-data}
use bsl45_misc_tools.Wal.Turns.{
  Event, written, stopped, turn, Process, step, steps, started, writes,
}

-- What is shared with the thread names the writer's file, or nothing.
abbrev Named : ℤ → ℕ → SyncState → Type 0
Named fd flags g = elim (g.state) [
  | wait ↦ Unit
  | quit ↦ g.flags ≡ 0
  | sync ↦ (g.fd ≡ fd) × (g.flags ≡ flags)
]

-- The calls that the thread still owes.
abbrev owed : Order → Thread → ℕ
owed sync (waiting nsync) = 1
owed sync (exited nsync) = 0
owed quit thread = 0
owed wait thread = 0

and_false : (b : Bool) → (b && false) ≡ false
and_false true = refl
and_false false = refl

fd_sync-none : (fd : ℤ) → fd_sync fd 0 ≡ done []
unfolding fd_sync
fd_sync-none fd = refl

record IsWithin (fd : ℤ) (flags n : ℕ) (r : Process) : Type 0 where
  pub named : Named fd flags r.g
  pub few : length r.calls + owed r.g.state r.thread ≤ n

-- A round of the thread, for each order.
round-IsWithin :
    (fd : ℤ) (flags n : ℕ) (failed : Bool) (state : Order) (f : ℤ) (l nsync : ℕ)
    (calls : List SyncCall)
    → flags % 4 ≡ 2
    → IsWithin fd flags n (record {
      g = record { state = state; fd = f; flags = l };
      thread = waiting nsync;
      calls = calls;
    })
    → (r : Process) × (thread_round failed (record { state = state; fd = f; flags = l }) nsync calls
        ≡ done (r.g, r.thread, r.calls))
      × IsWithin fd flags n r
unfolding thread_round after_sync
round-IsWithin fd flags n failed wait f l nsync calls two h = (
  record { g = record { state = wait; fd = f; flags = l }; thread = waiting nsync; calls = calls },
  refl,
  h,
)
round-IsWithin fd flags n failed quit f l nsync calls two h =
    let silent : fd_sync f l ≡ done [] = ap (λ k. fd_sync f k) h.named ∙ fd_sync-none f in
    (
      record {
        g = record { state = quit; fd = f; flags = l };
        thread = exited (suc nsync);
        calls = calls;
      },
      rw (silent, append-nil calls, and_false failed) refl,
      record { named = h.named; few = h.few },
    )
round-IsWithin fd flags n true sync f l nsync calls two h =
    let made : fd_sync f l ≡ done (fdatasync f ∷ []) =
      fd_sync-data f l (ap (λ k. k % 4) h.named.1 ∙ two) in
    (
      record {
        g = record { state = sync; fd = f; flags = l };
        thread = exited nsync;
        calls = calls ++ fdatasync f ∷ [];
      },
      rw (made) refl,
      record {
        named = h.named;
        few = omega (arith, h.few, length-append calls (fdatasync f ∷ []));
      },
    )
round-IsWithin fd flags n false sync f l nsync calls two h =
    let made : fd_sync f l ≡ done (fdatasync f ∷ []) =
      fd_sync-data f l (ap (λ k. k % 4) h.named.1 ∙ two) in
    (
      record {
        g = record { state = wait; fd = f; flags = l };
        thread = waiting (suc nsync);
        calls = calls ++ fdatasync f ∷ [];
      },
      rw (made) refl,
      record { named = tt; few = omega (arith, h.few, length-append calls (fdatasync f ∷ [])) },
    )

-- How many writes an event is.
abbrev count : Event → ℕ
count written = 1
count stopped = 0
count (turn failed) = 0

writes-count : (e : Event) (events : List Event) → writes (e ∷ events) ≡ count e + writes events
writes-count written events = omega arith
writes-count stopped events = omega arith
writes-count (turn failed) events = omega arith

owed-sync : (thread : Thread) → owed sync thread ≤ 1
owed-sync (waiting nsync) = omega arith
owed-sync (exited nsync) = omega arith

turn-IsWithin :
    (fd : ℤ) (flags n : ℕ) (failed : Bool) (g : SyncState) (thread : Thread) (calls : List SyncCall)
    → flags % 4 ≡ 2
    → IsWithin fd flags n (record { g = g; thread = thread; calls = calls })
    → (r : Process) × (step fd flags
          (turn failed)
          (record { g = g; thread = thread; calls = calls })
        ≡ done r)
      × IsWithin fd flags (n + 0) r
unfolding step
turn-IsWithin fd flags n failed g (exited nsync) calls two h = (
  record { g = g; thread = exited nsync; calls = calls },
  refl,
  record { named = h.named; few = omega (arith, h.few) },
)
turn-IsWithin fd flags n failed g (waiting nsync) calls two h =
    let (r, run, h') = round-IsWithin fd flags n failed g.state g.fd g.flags nsync calls two h in
    (r, rw (run) refl, record { named = h'.named; few = omega (arith, h'.few) })

step-IsWithin :
    (fd : ℤ) (flags n : ℕ) (e : Event) (r : Process)
    → flags % 4 ≡ 2
    → bit_and flags sync_thread ≢ 0
    → IsWithin fd flags n r
    → (r' : Process) × (step fd flags e r ≡ done r') × IsWithin fd flags (n + count e) r'
unfolding step do_sync toggle_sync_thread stop_sync_thread
step-IsWithin fd flags n written r two told h =
    let asked : (bit_and flags sync_thread == 0) ≡ false = ground arith in
    (
      record r { g = toggle_sync_thread fd flags sync r.g },
      rw (asked) refl,
      record { named = (refl, refl); few = omega (arith, h.few, owed-sync r.thread) },
    )
step-IsWithin fd flags n stopped r two told h = (
  record r { g = stop_sync_thread r.g },
  refl,
  record { named = refl; few = omega (arith, h.few) },
)
step-IsWithin fd flags n (turn failed) r two told h =
    turn-IsWithin fd flags n failed r.g r.thread r.calls two h

steps-IsWithin :
    (fd : ℤ) (flags n : ℕ) (events : List Event) (r : Process)
    → flags % 4 ≡ 2
    → bit_and flags sync_thread ≢ 0
    → IsWithin fd flags n r
    → (r' : Process) × (steps fd flags events r ≡ done r')
      × IsWithin fd flags (n + writes events) r'
unfolding steps
steps-IsWithin fd flags n [] r two told h =
    (r, refl, record { named = h.named; few = omega (arith, h.few) })
steps-IsWithin fd flags n (e ∷ events) r two told h =
    let (r', run, h') = step-IsWithin fd flags n e r two told h in
    let (r'', runs, h'') = steps-IsWithin fd flags (n + count e) events r' two told h' in
    (
      r'',
      rw (run) runs,
      record { named = h''.named; few = omega (arith, h''.few, writes-count e events) },
    )

-- With `-D` and `-T`, however the turns of the thread fall between the writes and the stop, and
-- whether its calls fail or not, no assertion fails, and there are at most as many calls to
-- synchronise the file as there are writes.
pub steps-few :
    (fd : ℤ) (flags : ℕ) (events : List Event)
    → flags % 4 ≡ 2
    → bit_and flags sync_thread ≢ 0
    → (r : Process) × (steps fd flags events started ≡ done r) × (length r.calls ≤ writes events)
steps-few fd flags events two told =
    let (r, run, h) =
      steps-IsWithin fd flags 0 events started two told
        (record { named = tt; few = omega arith }) in
    (r, run, omega (arith, h.few))

step-written :
    (fd : ℤ) (flags : ℕ) (r : Process)
    → bit_and flags sync_thread ≢ 0
    → step fd flags written r ≡ done (record r { g = toggle_sync_thread fd flags sync r.g })
unfolding step do_sync
step-written fd flags r told =
    let asked : (bit_and flags sync_thread == 0) ≡ false = ground arith in rw (asked) refl

-- With `-D` and `-T`, whatever came before, the thread that waits makes one call to synchronise the
-- file in its turn, for all the writes since its last turn together.
steps-together :
    (fd : ℤ) (flags k nsync : ℕ) (g : SyncState) (calls : List SyncCall)
    → flags % 4 ≡ 2
    → bit_and flags sync_thread ≢ 0
    → steps fd flags
        (replicate (suc k) written ++ turn false ∷ [])
        (record { g = g; thread = waiting nsync; calls = calls })
      ≡ done (record {
        g = record { state = wait; fd = fd; flags = flags };
        thread = waiting (suc nsync);
        calls = calls ++ fdatasync fd ∷ [];
      })
unfolding steps step thread_round after_sync toggle_sync_thread
steps-together fd flags zero nsync g calls two told =
    let r : Process = record { g = g; thread = waiting nsync; calls = calls } in
    rw (step-written fd flags r told, fd_sync-data fd flags two) refl
steps-together fd flags (suc k) nsync g calls two told =
    let r : Process = record { g = g; thread = waiting nsync; calls = calls } in
    rw (step-written fd flags r told)
      (steps-together fd flags k nsync (toggle_sync_thread fd flags sync g) calls two told)

-- With `-D` and `-T`, where the thread is stopped before it has had a turn since the last write, it
-- exits without a call to synchronise that write.
pub steps-lost :
    (fd : ℤ) (flags nsync : ℕ) (g : SyncState) (calls : List SyncCall) (failed : Bool)
    → flags % 4 ≡ 2
    → bit_and flags sync_thread ≢ 0
    → steps fd flags
        (written ∷ stopped ∷ turn failed ∷ [])
        (record { g = g; thread = waiting nsync; calls = calls })
      ≡ done (record {
        g = record { state = quit; fd = negsuc 0; flags = 0 };
        thread = exited (suc nsync);
        calls = calls;
      })
unfolding steps step thread_round after_sync stop_sync_thread toggle_sync_thread
steps-lost fd flags nsync g calls failed two told =
    let r : Process = record { g = g; thread = waiting nsync; calls = calls } in
    rw (step-written fd flags r told, fd_sync-none (negsuc 0), append-nil calls, and_false failed)
      refl
