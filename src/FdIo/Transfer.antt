-- ===== src/FdIo/Transfer.antt =====
-- `transfer` of fdwatch/fdio.c, as it is compiled on Linux: one buffer is read and written. What
-- `sendfile` does is a parameter.
use bsl45_misc_tools.Prelude.{
  ℕ, suc, ◌+◌, List, ◌||◌, Option, none, some, ◌==◌, ltb, ltb_ℤ, leb_ℤ, not, if◌then◌else◌, ℤ, pos,
  negsuc, sub_ℕ, Exec, done, abort,
}
use bsl45_misc_tools.FdIo.{Process, Answer, has_flag, restore, fdio_sendfile}
use bsl45_misc_tools.FdIo.Output.{Written, nwrite}
use bsl45_misc_tools.FdIo.Input.{Obtained, nread, npread}

-- `offset` is `*offset` at the end, where there is one.
pub record Moved : Type 0 where
  pub result : ℤ
  pub process : Process
  pub offset : Option ℤ
  pub out : List ℕ
  pub source : List ℕ

abbrev pub trfbuf_limit : ℕ
trfbuf_limit = 10240

-- `count`, unless it is unknown or too large.
unfoldable pub portion : ℕ → ℕ
portion count = if count == 0 || ltb trfbuf_limit count then trfbuf_limit else count

-- `*offset += ntotal`.
abbrev pub move_offset : Option ℕ → ℤ → Option ℤ
move_offset none n = none
move_offset (some offset) (pos n) = some (pos (offset + n))
move_offset (some offset) (negsuc n) = some (sub_ℕ offset (suc n))

unfoldable pub end_transfer : Option ℕ → ℤ → ℕ → Process → List ℕ → List ℕ → Moved
end_transfer offset ntotal err p out source = record {
  result = ntotal;
  process = restore err p;
  offset = move_offset offset ntotal;
  out = out;
  source = source;
}

-- After the write: whatever it has come to is the total, but for more bytes than were read.
unfoldable pub after_write : Option ℕ → Obtained → Option Written → Exec (Option Moved)
after_write offset r none = done none
after_write offset r (some w) =
    if ltb_ℤ r.result w.result
    then abort
    else done (some (end_transfer offset w.result 0 w.process w.out r.source))

-- After the read: `errno` decides, and so does the count.
unfoldable pub after_read :
    ℕ → Option ℕ → List ℕ → List Answer → Option Obtained → Exec (Option Moved)
after_read flags offset out writes none = done none
after_read flags offset out writes (some r) =
    if leb_ℤ r.result (pos 0) || not (r.process.errno == 0)
    then done (some (end_transfer offset (pos 0) r.process.errno r.process out r.source))
    else after_write offset r (nwrite flags writes r.buf r.process out)

-- The read of one portion, at a place or as the stream goes.
abbrev pub read_portion : ℕ → Option ℕ → ℕ → Process → List ℕ → List Answer → Option Obtained
read_portion flags none n p source reads = nread flags reads n p source
read_portion flags (some offset) n p source reads = npread flags reads n offset p source

-- `reads` and `writes` are what the system answers on the two descriptors.
unfoldable pub transfer :
    (sendfile : Option ℕ → ℕ → Process → Exec (Option Moved))
    → ℕ
    → Option ℕ
    → ℕ
    → Process
    → List ℕ
    → List ℕ
    → List Answer
    → List Answer
    → Exec (Option Moved)
transfer sendfile flags offset count p out source reads writes =
    if has_flag flags fdio_sendfile
    then sendfile offset count p
    else after_read flags offset out writes
        (read_portion flags offset (portion count) p source reads)
