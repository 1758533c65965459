-- ===== src/Relay/Files.antt =====
-- The state of `cyclic_file_relay` in fdwatch/frelay.c, and `rollover`.
use bsl45_misc_tools.Prelude.{
  ℕ, List, [], ◌∷◌, ◌++◌, Option, none, some, drop, ltb, if◌then◌else◌, ℤ, Exec, done, abort,
}
use bsl45_misc_tools.FdIo.{Process, Answer, set_errno, report}

-- The two files with the local variables of the function: what the source holds and what is left of it
-- to read, and what has been written to the file that `out_fd` is open on. `kept` are the files that
-- exist under a name that one was moved to, the latest first. `moved` is a record that the program does
-- not keep: what each file held when it was moved away, the oldest first, whether it still exists or
-- not. `nrolls` is taken not to wrap.
pub record Relay : Type 0 where
  pub process : Process
  pub file : List ℕ
  pub source : List ℕ
  pub out : List ℕ
  pub kept : List (List ℕ)
  pub moved : List (List ℕ)
  pub ntotal : ℤ
  pub nrolls : ℕ

-- What the system answers in one round of the loop. A call that moves no bytes succeeds, or fails with
-- an error.
pub record Round : Type 0 where
  pub reads : List Answer
  pub writes : List Answer
  pub seek : Option ℕ
  pub rename : Option ℕ
  pub fsync : Option ℕ
  pub close : Option ℕ
  pub opened : Option ℕ
  pub unlink : Option ℕ
  pub sleep : Option ℕ

-- `perror` after a call that has failed.
abbrev pub failed : ℕ → Relay → Relay
failed e r = record r { process = report e (set_errno e r.process) }

-- How `rollover` returns: with 0 or with -1.
pub data Rolled : Type 0 where
  rolled not_rolled : Relay → Rolled

-- A call after which `rollover` goes on, or returns.
abbrev pub tried : Option ℕ → Relay → (Relay → Rolled) → Rolled
tried none r next = next r
tried (some e) r next = not_rolled (failed e r)

-- After `rename`, `open` and `unlink`: the file has another name, there is an empty one in its place,
-- and the file that was moved away is gone.
abbrev pub renamed : Relay → Relay
renamed r = record r { kept = r.out ∷ r.kept; moved = r.moved ++ (r.out ∷ []) }

abbrev pub created : Relay → Relay
created r = record r { out = [] }

abbrev pub removed : Relay → Relay
removed r = record r { kept = drop 1 r.kept }

abbrev pub path_max : ℕ
path_max = 4096

-- `printed` is the length of the name that `snprintf` makes of the path and a counter.
unfoldable pub rollover : (ℕ → ℕ) → ℕ → Round → Relay → Exec Rolled
rollover printed counter a r =
    if ltb (printed counter) path_max
    then done (
        tried a.rename r λ r1. tried a.fsync (renamed r1) λ r2.
          tried a.close r2
            λ r3. tried a.opened r3 λ r4. tried a.unlink (created r4) λ r5. rolled (removed r5))
    else abort
