-- ===== src/FdIo.antt =====
-- fdwatch/fdio.c and fdwatch/fdio.h: loops that repeat a read or a write until all is moved.
-- Output has the writing loops, Input the reading ones, Transfer the copy from one to the other, and
-- Sendfile the same by the system.
pub mod Output
pub mod Input
pub mod Transfer
mod Sendfile
pub mod Writes
pub mod Vectors
pub mod Reads
pub mod Copies
pub mod Streams
pub mod Sending
mod Tests
use bsl45_misc_tools.Prelude.{
  ℕ, zero, suc, List, Bool, true, false, not, ◌&&◌, ◌||◌, ◌==◌, if◌then◌else◌, bit_and, ℤ, [], ◌∷◌,
}

-- The flags.
abbrev pub fdio_quiet_eagain : ℕ
fdio_quiet_eagain = 1

abbrev pub fdio_quiet_epipe : ℕ
fdio_quiet_epipe = 2

abbrev pub fdio_quiet_eintr : ℕ
fdio_quiet_eintr = 4

abbrev pub fdio_sendfile : ℕ
fdio_sendfile = 8

unfoldable pub has_flag : ℕ → ℕ → Bool
has_flag flags mask = not (bit_and flags mask == 0)

-- The values of `<errno.h>` on Linux, where EWOULDBLOCK is EAGAIN.
abbrev pub eintr : ℕ
eintr = 4

abbrev pub eagain : ℕ
eagain = 11

abbrev pub epipe : ℕ
epipe = 32

-- What the loops share with the process: `errno`, and the errors that `perror` has reported, the
-- latest first.
pub record Process : Type 0 where
  pub errno : ℕ
  pub reports : List ℕ

-- What the system answers to a call: it moves as many bytes as it says, but no more than asked for, or
-- it fails with an error.
pub data Answer : Type 0 where
  gives : ℕ → Answer
  fails : ℕ → Answer

-- A call sets `errno` only when it fails.
abbrev pub set_errno : ℕ → Process → Process
set_errno e p = record p { errno = e }

abbrev pub report : ℕ → Process → Process
report e p = record p { reports = e ∷ p.reports }

-- An interrupted call: a report unless the flag is set, and `errno` is cleared.
unfoldable pub interrupted : ℕ → Process → Process
interrupted flags p = set_errno 0 (if has_flag flags fdio_quiet_eintr then p else report p.errno p)

-- An error that ends a writing loop is reported unless a flag is set for it.
unfoldable pub give_up_write : ℕ → ℕ → Process → Process
give_up_write flags err p =
    if has_flag flags fdio_quiet_eagain && err == eagain
    then p
    else if has_flag flags fdio_quiet_epipe && err == epipe
    then p
    else report err p

-- For a reading loop there is only one such flag.
unfoldable pub give_up_read : ℕ → ℕ → Process → Process
give_up_read flags err p =
    if has_flag flags fdio_quiet_eagain && err == eagain then p else report err p

-- `if (err) errno = err;`
unfoldable pub restore : ℕ → Process → Process
restore zero p = p
restore (suc err) p = set_errno (suc err) p
