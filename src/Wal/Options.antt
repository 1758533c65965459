-- ===== src/Wal/Options.antt =====
-- The command line of wal/wbuft.c: `read_opt` and the checks of `main`. `getopt` is taken to give the
-- options as a list, each with the number that `atol` makes of its argument.
use bsl45_misc_tools.Prelude.{
  ℕ, ◌+◌, ◌*◌, List, [], ◌∷◌, ◌||◌, Option, none, some, ◌==◌, ltb, leb, if◌then◌else◌, ℤ, pos,
  negsuc, ltb_ℤ, leb_ℤ, bit_or, get_elem?, pos_part,
}

abbrev pub min_bufsz : ℕ
min_bufsz = 1024

abbrev pub max_bufsz : ℕ
max_bufsz = 1024 * 1024 * 512

abbrev pub min_incr : ℕ
min_incr = 128

abbrev pub min_nincr : ℕ
min_nincr = 1

abbrev pub max_nincr : ℕ
max_nincr = 1024 * 1024

-- The mode flags.
abbrev pub sync_type : ℕ
sync_type = 3

abbrev pub sync_all : ℕ
sync_all = 1

abbrev pub sync_data : ℕ
sync_data = 2

abbrev pub falloc : ℕ
falloc = 4

abbrev pub falloc_sz : ℕ
falloc_sz = 8

abbrev pub sync_thread : ℕ
sync_thread = 16

abbrev pub seq_write : ℕ
seq_write = 32

-- The values of `<fcntl.h>` and `<errno.h>` on Linux, where O_FSYNC is O_SYNC.
abbrev pub o_trunc : ℕ
o_trunc = 512

abbrev pub o_append : ℕ
o_append = 1024

abbrev pub o_dsync : ℕ
o_dsync = 4096

abbrev pub o_direct : ℕ
o_direct = 16384

abbrev pub o_sync : ℕ
o_sync = 1052672

abbrev pub einval : ℕ
einval = 22

-- `struct test_spec`
pub record TestSpec : Type 0 where
  pub mode_flags : ℕ
  pub open_flags : ℕ
  pub len : ℕ
  pub niter : ℕ
  pub incr : ℕ
  pub nincr : ℕ
  pub num_chunks : ℕ

abbrev pub cleared : TestSpec
cleared = record {
  mode_flags = 0;
  open_flags = 0;
  len = 0;
  niter = 0;
  incr = 0;
  nincr = 0;
  num_chunks = 0;
}

-- What an option letter stands for.
pub data Kind : Type 0 where
  mode : ℕ → Kind
  opening : ℕ → Kind
  increment increments chunks invalid : Kind

unfoldable pub kind : ℕ → Kind
kind opt =
    if opt == b'Q'
    then mode seq_write
    else if opt == b'T'
    then mode sync_thread
    else if opt == b'F'
    then mode falloc
    else if opt == b'k'
    then mode falloc_sz
    else if opt == b't'
    then opening o_trunc
    else if opt == b'a'
    then opening o_append
    else if opt == b'i'
    then opening o_direct
    else if opt == b's'
    then opening o_sync
    else if opt == b'f'
    then opening o_sync
    else if opt == b'd'
    then opening o_dsync
    else if opt == b'D'
    then mode sync_data
    else if opt == b'S'
    then mode sync_data
    else if opt == b'I'
    then increment
    else if opt == b'N'
    then increments
    else if opt == b'U'
    then chunks
    else invalid

-- One option: its effect, or the value that `read_opt` returns at once.
pub data Effect : Type 0 where
  goes_on : TestSpec → Effect
  stops : ℤ → Effect

-- A number is kept if it lies in the range.
unfoldable pub in_limits : ℕ → ℕ → ℤ → TestSpec → Effect
in_limits low high lval sp =
    if ltb_ℤ lval (pos low) || ltb_ℤ (pos high) lval then stops (pos einval) else goes_on sp

unfoldable pub apply_kind : Kind → ℤ → TestSpec → Effect
apply_kind (mode flag) lval sp = goes_on (record sp { mode_flags = bit_or sp.mode_flags flag })
apply_kind (opening flag) lval sp = goes_on (record sp { open_flags = bit_or sp.open_flags flag })
apply_kind increment lval sp =
    in_limits min_incr (min_incr + max_nincr * min_bufsz) lval (record sp { incr = pos_part lval })
apply_kind increments lval sp =
    in_limits min_nincr max_nincr lval (record sp { nincr = pos_part lval })
apply_kind chunks lval sp =
    if ltb_ℤ lval (pos 2)
    then stops (pos einval)
    else goes_on (record sp { num_chunks = pos_part lval })
apply_kind invalid lval sp = stops (negsuc 0)

abbrev pub and_then : Effect → (TestSpec → Effect) → Effect
and_then (goes_on sp) f = f sp
and_then (stops rc) f = stops rc

-- The loop over the options.
unfoldable pub read_opt : List (ℕ × ℤ) → TestSpec → Effect
read_opt [] sp = goes_on sp
read_opt ((opt, lval) ∷ options) sp = and_then (apply_kind (kind opt) lval sp) (read_opt options)

-- How `main` comes out before the test is run: the usage text and exit status 1, a return value, a
-- null pointer that is read, or the settings of the test.
pub data Checked : Type 0 where
  usage_exit null_read : Checked
  returns : ℕ → Checked
  runs : TestSpec → Checked

-- The last checks, with the defaults.
unfoldable pub complete : TestSpec → Checked
complete sp =
    let len = if sp.len == 0 then min_bufsz else sp.len in
    let incr = if sp.incr == 0 then min_incr else sp.incr in
    let nincr = if sp.nincr == 0 then min_nincr else sp.nincr in
    if leb len sp.num_chunks
    then returns einval
    else runs (record sp { len = len; incr = incr; nincr = nincr })

-- `niter`, the third operand.
unfoldable pub check_niter : Option ℤ → TestSpec → Checked
check_niter none sp = null_read
check_niter (some niter) sp =
    if leb_ℤ niter (pos 0) then returns einval else complete (record sp { niter = pos_part niter })

unfoldable pub check_bufsz : ℤ → Option ℤ → TestSpec → Checked
check_bufsz bufsz niter sp =
    if ltb_ℤ bufsz (pos min_bufsz) || ltb_ℤ (pos max_bufsz) bufsz
    then returns einval
    else check_niter niter (record sp { len = pos_part bufsz })

-- The operands that are left, as `atol` reads them; the first is the name of the file.
unfoldable pub check_operands : List ℤ → TestSpec → Checked
check_operands [] sp = usage_exit
check_operands (fname ∷ []) sp = usage_exit
check_operands (fname ∷ bufsz ∷ operands) sp = check_bufsz bufsz (get_elem? operands 0) sp

abbrev pub after_options : List ℤ → Effect → Checked
after_options operands (stops rc) = returns einval
after_options operands (goes_on sp) = check_operands operands sp

-- `main` up to the call of `run_odsync`.
unfoldable pub main_checks : ℕ → List (ℕ × ℤ) → List ℤ → Checked
main_checks argc options operands =
    if ltb argc 3 then usage_exit else after_options operands (read_opt options cleared)
