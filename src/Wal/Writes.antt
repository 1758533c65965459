-- ===== src/Wal/Writes.antt =====
-- What `write_nbuf` and `writev_nbuf` of wal/wbuft.c write, return and synchronise.
use bsl45_misc_tools.Prelude.{
  ℕ, ◌+◌, ◌*◌, ◌/◌, ◌%◌, ◌<◌, ◌≡◌, refl, sym, ◌∙◌, ap, List, ◌++◌, Bool, true, false, not, ◌==◌,
  ltb, leb, ℤ, pos, bit_and, done, Option, none, some, length, replicate, arith,
}
use bsl45_misc_tools.Wal.Options.{TestSpec, sync_thread, seq_write}
use bsl45_misc_tools.Wal.Sync.{fdatasync}
use bsl45_misc_tools.Wal.Writing.{
  Answer, wrote, World, total_or_error, iterate, write_nbuf, concat, writev_nbuf, ssize_limit,
}
use bsl45_misc_tools.Wal.Chunks.{split_lem}
use native.Mathlib.Nat.{mul-div-le}
use bsl45_misc_tools.Wal.Rounds.{
  after_writes, after_writes-out, iterate-whole, after_writes-errno, after_writes-calls,
}

-- The writes begin: the file is written on, or it can be gone back to its start.
abbrev pub starts : Option ℕ → TestSpec → Bool
starts none sp = true
starts (some e) sp = not (bit_and sp.mode_flags seq_write == 0)

pub write_nbuf-starts :
    (seek : Option ℕ) (fd : ℤ) (buf : List ℕ) (sp : TestSpec) (answers : List Answer) (w : World)
    → starts seek sp ≡ true
    → write_nbuf seek fd buf sp answers w ≡ iterate fd sp buf sp.niter answers 0 w
unfolding write_nbuf
write_nbuf-starts none fd buf sp answers w h = refl
write_nbuf-starts (some e) fd buf sp answers w h =
    let on : (bit_and sp.mode_flags seq_write == 0) ≡ false = ground arith in rw (on) refl

write_nbuf-all :
    (seek : Option ℕ) (fd : ℤ) (buf : List ℕ) (sp : TestSpec) (rest : List Answer) (w : World)
    → sp.mode_flags % 2 ≡ 0
    → starts seek sp ≡ true
    → sp.niter * length buf < ssize_limit
    → write_nbuf seek fd buf sp (replicate sp.niter (wrote (length buf)) ++ rest) w
      ≡ done
          (some (pos (sp.niter * length buf), after_writes fd sp.mode_flags buf sp.niter w, rest))
unfolding iterate total_or_error
write_nbuf-all seek fd buf sp rest w h s small =
    let answers = replicate sp.niter (wrote (length buf)) ++ rest in
    let n : sp.niter + 0 ≡ sp.niter = omega arith in
    let t : sp.niter * length buf + 0 ≡ sp.niter * length buf = omega arith in
    write_nbuf-starts seek fd buf sp answers w s
    ∙ ap (λ k. iterate fd sp buf k answers 0 w) (sym n)
    ∙ iterate-whole fd sp buf sp.niter 0 rest 0 w h (omega (arith, small))
    ∙ ap (λ k. done (some (pos k, after_writes fd sp.mode_flags buf sp.niter w, rest))) t

-- Where no option asks for `fsync`, the writes begin, the sum of the bytes fits, and the system takes the
-- whole buffer each time, `write_nbuf` returns the number of bytes of all the writes, and the file has got as many
-- copies of the buffer as there are iterations; `errno` is as it was.
pub write_nbuf-whole :
    (seek : Option ℕ) (fd : ℤ) (buf : List ℕ) (sp : TestSpec) (rest : List Answer) (w : World)
    → sp.mode_flags % 2 ≡ 0
    → starts seek sp ≡ true
    → sp.niter * length buf < ssize_limit
    → (w' : World) × (write_nbuf seek fd buf sp (replicate sp.niter (wrote (length buf)) ++ rest) w
        ≡ done (some (pos (sp.niter * length buf), w', rest)))
      × (w'.out ≡ w.out ++ concat (replicate sp.niter buf))
      × (w'.errno ≡ w.errno)
write_nbuf-whole seek fd buf sp rest w h s small = (
  after_writes fd sp.mode_flags buf sp.niter w,
  write_nbuf-all seek fd buf sp rest w h s small,
  after_writes-out fd sp.mode_flags buf sp.niter w,
  after_writes-errno fd sp.mode_flags buf sp.niter w,
)

-- Where `-D` is given and not `-T`, the writes begin, the sum of the bytes fits, and the system takes the
-- whole buffer each time,
-- `write_nbuf` calls `fdatasync` on the file once for each write.
write_nbuf-syncs :
    (seek : Option ℕ) (fd : ℤ) (buf : List ℕ) (sp : TestSpec) (rest : List Answer) (w : World)
    → sp.mode_flags % 4 ≡ 2
    → bit_and sp.mode_flags sync_thread ≡ 0
    → starts seek sp ≡ true
    → sp.niter * length buf < ssize_limit
    → (w' : World) × (write_nbuf seek fd buf sp (replicate sp.niter (wrote (length buf)) ++ rest) w
        ≡ done (some (pos (sp.niter * length buf), w', rest)))
      × (w'.calls ≡ w.calls ++ replicate sp.niter (fdatasync fd))
write_nbuf-syncs seek fd buf sp rest w h direct s small = (
  after_writes fd sp.mode_flags buf sp.niter w,
  write_nbuf-all seek fd buf sp rest w (omega arith) s small,
  after_writes-calls fd sp.mode_flags buf sp.niter w h direct,
)

-- Where there are at least two chunks and fewer than bytes, and the vectors are allocated,
-- `writev_nbuf` does on all answers what `write_nbuf` does: its assertions hold, and the chunks hold
-- the bytes of the buffer in order.
pub writev_nbuf_lem :
    (seek : Option ℕ) (fd : ℤ) (buf : List ℕ) (sp : TestSpec) (answers : List Answer) (w : World)
    → 1 < sp.num_chunks
    → sp.num_chunks < length buf
    → writev_nbuf true seek fd buf sp answers w ≡ write_nbuf seek fd buf sp answers w
unfolding writev_nbuf write_nbuf
writev_nbuf_lem seek fd buf sp answers w many few =
    let lower : ltb 1 sp.num_chunks ≡ true = ground arith in
    let upper : ltb sp.num_chunks (length buf) ≡ true = ground arith in
    let chunk : leb 1 (length buf / sp.num_chunks) ≡ true = ground arith in
    let (iov, filled, joined) =
      split_lem sp.num_chunks (length buf / sp.num_chunks) buf (omega arith)
        (mul-div-le (length buf) sp.num_chunks) in
    elim seek as (λ k. writev_nbuf true k fd buf sp answers w ≡ write_nbuf k fd buf sp answers w) [
      | none ↦ rw (lower, upper, chunk, filled, joined) refl
      | some e ↦ rw (lower, upper, chunk, filled, joined) refl
    ]
