-- ===== src/Wal/Tests.antt =====
-- Runs of the model of wal/wbuft.c on small inputs, and its theorems at concrete inputs.
use bsl45_misc_tools.Prelude.{
  ℕ, ◌≤◌, ◌≡◌, ◌≢◌, refl, List, [], ◌∷◌, true, false, ℤ, pos, negsuc, bit_and, done, none, length,
  replicate, arith,
}
use bsl45_misc_tools.Wal.Options.{
  TestSpec, kind, apply_kind, in_limits, read_opt, runs, main_checks, complete, check_niter,
  check_bufsz, check_operands,
}
use bsl45_misc_tools.Wal.Settings.{IsSettled, main_checks-IsSettled}
use bsl45_misc_tools.Wal.Sync.{g_st, quit}
use bsl45_misc_tools.Wal.Writing.{wrote, failed, World, write_nbuf, writev_nbuf}
use bsl45_misc_tools.Wal.Writes.{writev_nbuf_lem}
use bsl45_misc_tools.Wal.Turns.{written, stopped, turn, Process, steps, started}
use bsl45_misc_tools.Wal.SyncThread.{steps-few, steps-lost}
use bsl45_misc_tools.Wal.Run.{System, file, main}
use bsl45_misc_tools.Wal.Whole.{Ends, main-Ends}
use bsl45_misc_tools.Wal.Sync.{waiting, exited}

-- `-D -N 2` with 1024 bytes and 3 iterations.
abbrev small_options : List (ℕ × ℤ)
small_options = (b'D', pos 0) ∷ (b'N', pos 2) ∷ []

abbrev small_operands : List ℤ
small_operands = pos 0 ∷ pos 1024 ∷ pos 3 ∷ []

abbrev small : TestSpec
small = record {
  mode_flags = 2;
  open_flags = 0;
  len = 1024;
  niter = 3;
  incr = 128;
  nincr = 2;
  num_chunks = 0;
}

abbrev blank : World
blank = record { errno = 0; g = g_st; calls = []; out = [] }

-- A system that serves everything.
abbrev serving_system : System
serving_system = record {
  open_file = λ flags. file 3;
  fallocate = λ keep n. true;
  pthread_create = 0;
  malloc = λ len. true;
  rand = λ ni j. j;
  lseek = λ ni. none;
  calloc = λ ni. true;
}

accepted : main_checks 6 small_options small_operands ≡ runs small
unfolding main_checks read_opt kind apply_kind in_limits check_operands check_bufsz check_niter
    complete
accepted = refl

main_checks-IsSettled_example : IsSettled small
main_checks-IsSettled_example = main_checks-IsSettled 6 small_options small_operands small accepted

abbrev chunked : TestSpec
chunked = record small { num_chunks = 2 }

writev_nbuf_lem_example :
    writev_nbuf true none (pos 3) (7 ∷ 8 ∷ 9 ∷ []) chunked (wrote 3 ∷ failed 5 ∷ []) blank
    ≡ write_nbuf none (pos 3) (7 ∷ 8 ∷ 9 ∷ []) chunked (wrote 3 ∷ failed 5 ∷ []) blank
writev_nbuf_lem_example =
    writev_nbuf_lem none (pos 3) (7 ∷ 8 ∷ 9 ∷ []) chunked (wrote 3 ∷ failed 5 ∷ []) blank
      (omega arith) (omega arith)

not_told : bit_and 18 16 ≢ 0
not_told = omega arith

steps-few_example :
    (r : Process) × (steps
        (pos 3)
        18
        (written ∷ written ∷ turn true ∷ stopped ∷ turn false ∷ [])
        started
      ≡ done r)
    × (length r.calls ≤ 2)
steps-few_example =
    steps-few (pos 3) 18 (written ∷ written ∷ turn true ∷ stopped ∷ turn false ∷ []) refl not_told

steps-lost_example :
    steps
      (pos 3)
      18
      (written ∷ stopped ∷ turn false ∷ [])
      (record { g = g_st; thread = waiting 0; calls = [] })
    ≡ done (record {
      g = record { state = quit; fd = negsuc 0; flags = 0 };
      thread = exited 1;
      calls = [];
    })
steps-lost_example = steps-lost (pos 3) 18 0 g_st [] false refl not_told

main-Ends_example :
    Ends
      (main serving_system 6 small_options small_operands (replicate 6 (wrote 1024)) blank)
      (replicate 6 (wrote 1024))
      6
main-Ends_example =
    main-Ends serving_system 6 small_options small_operands small (replicate 6 (wrote 1024)) blank
      accepted (omega arith) (omega arith)
