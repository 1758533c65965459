-- ===== src/FdIo/Tests.antt =====
-- Concrete runs of fdwatch/fdio.c, and the instances of the theorems.
use bsl45_misc_tools.Prelude.{
  ℕ, inl, ◌≡◌, refl, List, [], ◌∷◌, false, Option, none, some, pos, negsuc, arith, Exec, done,
}
use bsl45_misc_tools.FdIo.{
  Process, Answer, gives, fails, has_flag, restore, interrupted, give_up_write, fdio_sendfile,
}
use bsl45_misc_tools.FdIo.Output.{Written, nwrite, end_nwrite, nwritev}
use bsl45_misc_tools.FdIo.Input.{nread, npread}
use bsl45_misc_tools.FdIo.Transfer.{Moved, transfer, portion, after_read, after_write, end_transfer}
use bsl45_misc_tools.FdIo.Writes.{progress, WritesPrefix, nwrite_ends}
use bsl45_misc_tools.FdIo.Reads.{npread_lem, of_file}
use bsl45_misc_tools.FdIo.Sendfile.{SendAnswer, Sent, stands, send_loop, end_offset, bsd_nsendfile}
use bsl45_misc_tools.FdIo.Sending.{bsd_nsendfile-end, bsd_nsendfile_lem}
use bsl45_misc_tools.FdIo.Vectors.{nwritev_ends}
use bsl45_misc_tools.FdIo.Copies.{transfer-stale}
use bsl45_misc_tools.FdIo.Streams.{Moves, transfer_lem}

abbrev fresh : Process
fresh = record { errno = 0; reports = [] }

abbrev bytes : List ℕ
bytes = 1 ∷ 2 ∷ 3 ∷ []

-- Two bytes, an interruption, and the third.
abbrev bumpy : List Answer
bumpy = gives 2 ∷ fails 4 ∷ gives 5 ∷ []

enough : progress bumpy ≡ 2
unfolding progress
enough = refl

write_runs :
    nwrite 0 bumpy bytes fresh []
    ≡ some (record {
      result = pos 3;
      process = record { errno = 0; reports = 4 ∷ [] };
      out = bytes;
      rest = [];
    })
unfolding nwrite end_nwrite interrupted has_flag restore
write_runs = refl

-- A byte at a time, with an interruption.
abbrev single : List Answer
single = gives 1 ∷ fails 4 ∷ gives 1 ∷ gives 1 ∷ gives 1 ∷ []

single-progress : progress single ≡ 4
unfolding progress
single-progress = refl

nwrite_ends_example :
    (w : Written) × (nwrite 7 single bytes fresh [] ≡ some w) × WritesPrefix bytes 0 [] w
nwrite_ends_example = nwrite_ends 7 single bytes fresh [] (omega (arith, single-progress))

npread_lem_example :
    npread 0 bumpy 2 1 fresh bytes ≡ of_file bytes (nread 0 bumpy 2 fresh (2 ∷ 3 ∷ []))
npread_lem_example = npread_lem 0 bumpy 2 1 fresh bytes

nwritev_ends_example :
    (w : Written) × (nwritev 0 single ((1 ∷ 2 ∷ []) ∷ (3 ∷ []) ∷ []) fresh [] ≡ done (some w))
    × WritesPrefix bytes 0 [] w
nwritev_ends_example =
    nwritev_ends 0 single (1 ∷ 2 ∷ []) ((3 ∷ []) ∷ []) fresh [] refl
      (omega (arith, single-progress))

-- A system whose `sendfile` has no answer.
abbrev no_sendfile : Option ℕ → ℕ → Process → Exec (Option Moved)
no_sendfile offset count p = done none

no_flag : has_flag 7 fdio_sendfile ≡ false
unfolding has_flag
no_flag = refl

three : portion 3 ≡ 3
unfolding portion
three = refl

transfer_lem_example :
    (m : Moved) × (transfer no_sendfile 7 (some 1) 3 fresh [] (0 ∷ bytes) single single
      ≡ done (some m))
    × Moves (some 1) (portion 3) [] (0 ∷ bytes) m
transfer_lem_example =
    transfer_lem no_sendfile 7 (some 1) 3 fresh [] (0 ∷ bytes) single single no_flag refl
      (tt, (refl, (tt, (tt, (tt, tt))))) (tt, (refl, (tt, (tt, (tt, tt)))))
      (omega (arith, single-progress, three)) (omega (arith, single-progress, three))

abbrev plain : List Answer
plain = gives 1 ∷ gives 1 ∷ gives 1 ∷ []

plain-progress : progress plain ≡ 3
unfolding progress
plain-progress = refl

-- A process that has met an error before.
abbrev stale : Process
stale = record { errno = 2; reports = [] }

transfer-stale_example :
    (m : Moved) × (transfer no_sendfile 7 none 3 stale [] bytes plain plain ≡ done (some m))
    × (m.out ≡ [])
    × (m.result ≡ pos 0)
transfer-stale_example =
    transfer-stale no_sendfile 7 none 3 stale [] bytes plain plain no_flag
      (λ e. absurd (omega arith)) (tt, (tt, (tt, tt))) (omega (arith, plain-progress, three))

-- The three bytes of the stream are read, and lost.
stale_loses :
    transfer no_sendfile 7 none 3 stale [] bytes plain plain
    ≡ done (some (record { result = pos 0; process = stale; offset = none; out = []; source = [] }))
unfolding transfer has_flag portion nread after_read end_transfer restore
stale_loses = refl

-- A write that fails moves the offset back by one.
offset_goes_back :
    transfer no_sendfile 7 (some 1) 3 fresh [] (0 ∷ bytes) plain (fails 32 ∷ [])
    ≡ done (
        some (record {
          result = negsuc 0;
          process = record { errno = 32; reports = [] };
          offset = some (pos 0);
          out = [];
          source = 0 ∷ bytes;
        }))
unfolding transfer has_flag portion npread nwrite after_read after_write end_transfer restore
    end_nwrite give_up_write
offset_goes_back = refl

-- A call that sends one byte, and one at the end of the file.
abbrev one_byte : SendAnswer
one_byte = record { sbytes = 1; error = none }

abbrev no_byte : SendAnswer
no_byte = record { sbytes = 0; error = none }

-- Two bytes are sent, the result is 1, and the offset moves by 3.
send_runs :
    bsd_nsendfile 0 (stands 0) none (one_byte ∷ one_byte ∷ []) (some (pos 0)) 2 fresh bytes []
    ≡ some (record { result = pos 1; process = fresh; offset = some (pos 3); out = 1 ∷ 2 ∷ [] })
unfolding bsd_nsendfile send_loop end_offset restore
send_runs = refl

bsd_nsendfile-end_example :
    (bsd_nsendfile 0 (stands 0) none (no_byte ∷ no_byte ∷ []) (some (pos 3)) 2 fresh bytes []
      ≡ none)
    × (bsd_nsendfile 0 (stands 3) none (no_byte ∷ no_byte ∷ []) none 2 fresh bytes [] ≡ none)
bsd_nsendfile-end_example =
    bsd_nsendfile-end 0 3 (stands 0) none (no_byte ∷ no_byte ∷ []) 2 fresh bytes [] (omega arith)
      refl (inl refl, (inl refl, tt))

bsd_nsendfile_lem_example :
    (w : Sent) × (bsd_nsendfile 0
        (stands 0)
        none
        (one_byte ∷ one_byte ∷ [])
        (some (pos 0))
        2
        fresh
        bytes
        []
      ≡ some w)
    × (w.out ≡ 1 ∷ 2 ∷ [])
    × (w.result ≡ pos 1)
    × (w.offset ≡ some (pos 3))
    × (w.process ≡ fresh)
bsd_nsendfile_lem_example =
    bsd_nsendfile_lem 0 0 (stands 0) none (one_byte ∷ one_byte ∷ []) 2 fresh bytes []
      ((refl, omega arith), ((refl, omega arith), tt)) (omega arith) (omega arith)
