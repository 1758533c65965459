-- ===== src/Wal/Run.antt =====
-- `run_odsync` of wal/wbuft.c: the rounds of the test, each with a longer buffer.
use bsl45_misc_tools.Prelude.{
  ℕ, zero, suc, ◌+◌, ◌-◌, ◌*◌, ◌%◌, ◌^◌, List, [], ◌∷◌, Bool, false, not, ◌&&◌, ◌==◌, ltb,
  if◌then◌else◌, ℤ, pos, negsuc, leb_ℤ, bit_and, bit_or, Exec, done, abort, fault, Option, none,
  some,
}
use bsl45_misc_tools.Wal.Options.{
  TestSpec, max_bufsz, falloc, falloc_sz, sync_thread, sync_type, main_checks, Checked, usage_exit,
  null_read, returns, runs,
}
use bsl45_misc_tools.Wal.Sync.{stop_sync_thread}
use bsl45_misc_tools.Wal.Writing.{Answer, World, write_nbuf, writev_nbuf}

-- The values of `<fcntl.h>` and `<errno.h>` on Linux.
abbrev pub o_rdwr : ℕ
o_rdwr = 2

abbrev pub o_creat : ℕ
o_creat = 64

abbrev pub enomem : ℕ
enomem = 12

-- What `open` comes to: an error, or a descriptor.
pub data Opened : Type 0 where
  no_file file : ℕ → Opened

-- What the system does for the test, but for its writes: `open` with the flags, `fallocate` with the
-- flag to keep the size (whether it succeeds), `pthread_create` (its value), `malloc` of a size, and
-- in each round the values of `rand`, `lseek` (its error, if any) and `calloc`.
pub record System : Type 0 where
  pub open_file : ℕ → Opened
  pub fallocate : Bool → ℕ → Bool
  pub pthread_create : ℕ
  pub malloc : ℕ → Bool
  pub rand : ℕ → ℕ → ℕ
  pub lseek : ℕ → Option ℕ
  pub calloc : ℕ → Bool

-- The bytes of the buffer from the `j`th on.
unfoldable pub random_bytes : (ℕ → ℕ) → ℕ → ℕ → List ℕ
random_bytes rand j zero = []
random_bytes rand j (suc n) = bit_and (rand j) 255 ∷ random_bytes rand (suc j) n

-- The function of the vectors where chunks are asked for.
unfoldable pub write_data :
    System
    → ℕ
    → ℕ
    → List ℕ
    → TestSpec
    → List Answer
    → World
    → Exec (Option (ℤ × World × List Answer))
write_data sys ni fd buf sp answers w =
    if ltb 0 sp.num_chunks
    then writev_nbuf (sys.calloc ni) (sys.lseek ni) (pos fd) buf sp answers w
    else write_nbuf (sys.lseek ni) (pos fd) buf sp answers w

-- A round that has written nothing ends the test with the value of its writes.
abbrev pub after_round :
    (List Answer → World → Exec (Option (ℤ × World × List Answer)))
    → Exec (Option (ℤ × World × List Answer))
    → Exec (Option (ℤ × World × List Answer))
after_round more abort = abort
after_round more fault = fault
after_round more (done none) = done none
after_round more (done (some (n, w, answers))) =
    if leb_ℤ n (pos 0) then done (some (n, w, answers)) else more answers w

-- The loop over the rounds, from round `ni` on.
unfoldable pub test_rounds :
    System
    → ℕ
    → TestSpec
    → ℕ
    → ℕ
    → ℕ
    → List Answer
    → World
    → Exec (Option (ℤ × World × List Answer))
test_rounds sys fd sp zero ni len answers w = done (some (pos 0, w, answers))
test_rounds sys fd sp (suc left) ni len answers w =
    let more = test_rounds sys fd sp left (suc ni) (len + sp.incr) in
    if not (ltb len max_bufsz)
    then done (some (pos 0, w, answers))
    else if not (sys.malloc len)
    then done (some (pos enomem, w, answers))
    else after_round more (write_data sys ni fd (random_bytes (sys.rand ni) 0 len) sp answers w)

-- The bytes to allocate, in a `size_t`.
unfoldable pub nfalloc : TestSpec → ℕ
nfalloc sp = (sp.len * sp.niter + sp.incr * (sp.nincr + 2 ^ 64 - 1)) % 2 ^ 64

-- `rc` after `fallocate`.
unfoldable pub allocate : System → TestSpec → ℤ
allocate sys sp =
    if bit_and sp.mode_flags falloc == 0
    then pos 0
    else if sys.fallocate (not (bit_and sp.mode_flags falloc_sz == 0)) (nfalloc sp)
    then pos 0
    else negsuc 0

abbrev pub threaded : TestSpec → Bool
threaded sp =
    not (bit_and sp.mode_flags sync_thread == 0) && not (bit_and sp.mode_flags sync_type == 0)

-- `rc` when the loop begins: that of `pthread_create` replaces that of `fallocate`.
unfoldable pub rc_before : System → TestSpec → ℤ
rc_before sys sp = if threaded sp then pos sys.pthread_create else allocate sys sp

abbrev pub is_zero : ℤ → Bool
is_zero (pos n) = n == 0
is_zero (negsuc n) = false

-- The thread is stopped if it was started.
abbrev pub stopping : System → TestSpec → World → World
stopping sys sp w =
    if threaded sp && sys.pthread_create == 0 then record w { g = stop_sync_thread w.g } else w

abbrev pub at_end :
    System
    → TestSpec
    → Exec (Option (ℤ × World × List Answer))
    → Exec (Option (ℤ × World × List Answer))
at_end sys sp abort = abort
at_end sys sp fault = fault
at_end sys sp (done none) = done none
at_end sys sp (done (some (rc, w, answers))) = done (some (rc, stopping sys sp w, answers))

unfoldable pub run_odsync :
    System → TestSpec → List Answer → World → Exec (Option (ℤ × World × List Answer))
run_odsync sys sp answers w = elim (sys.open_file (bit_or (bit_or o_creat o_rdwr) sp.open_flags)) [
  | no_file e ↦ done (some (pos e, record w { errno = e }, answers))
  | file fd ↦ at_end sys sp (
      if is_zero (rc_before sys sp)
      then test_rounds sys fd sp sp.nincr 0 sp.len answers w
      else done (some (rc_before sys sp, w, answers)))
]

abbrev pub after_checks :
    System → Checked → List Answer → World → Exec (Option (ℤ × World × List Answer))
after_checks sys usage_exit answers w = done (some (pos 1, w, answers))
after_checks sys null_read answers w = fault
after_checks sys (returns rc) answers w = done (some (pos rc, w, answers))
after_checks sys (runs sp) answers w = run_odsync sys sp answers w

-- `main`, with the operands as `atol` reads them.
unfoldable pub main :
    System
    → ℕ
    → List (ℕ × ℤ)
    → List ℤ
    → List Answer
    → World
    → Exec (Option (ℤ × World × List Answer))
main sys argc options operands answers w =
    after_checks sys (main_checks argc options operands) answers w
