-- ===== src/Wal/Writing.antt =====
-- The two ways of writing of wal/wbuft.c: `write_nbuf` writes the buffer at once, `writev_nbuf` in
-- chunks.
use bsl45_misc_tools.Prelude.{
  ℕ, zero, suc, ◌+◌, ◌/◌, List, [], ◌∷◌, ◌++◌, Bool, false, ◌&&◌, ◌==◌, ◌^◌, not, fault, set,
  replicate, ltb, leb, if◌then◌else◌, ℤ, pos, negsuc, sub_ℕ, bit_and, Exec, done, ◌>>=◌, ◌>>◌,
  assert, Option, none, some, length, take, drop,
}
use bsl45_misc_tools.Wal.Options.{TestSpec, sync_type, seq_write}
use bsl45_misc_tools.Wal.Sync.{SyncState, SyncCall, do_sync}

-- What the system answers to a write: how many bytes it has taken, or the error that it fails with.
pub data Answer : Type 0 where
  wrote : ℕ → Answer
  failed : ℕ → Answer

-- What the writing functions share with the process: `errno`, the order to the thread that syncs, the
-- calls to sync, and the bytes that have reached the file.
pub record World : Type 0 where
  pub errno : ℕ
  pub g : SyncState
  pub calls : List SyncCall
  pub out : List ℕ

-- -e, as an integer.
abbrev pub minus : ℕ → ℤ
minus e = sub_ℕ 0 e

-- The end of both functions: `!err ? ntotal : -err`.
unfoldable pub total_or_error : ℕ → ℕ → ℤ
total_or_error zero ntotal = pos ntotal
total_or_error (suc err) ntotal = negsuc err

-- The file is synchronised after a write, if the settings say so.
unfoldable pub sync_after : ℤ → TestSpec → World → Exec World
sync_after fd sp w = if bit_and sp.mode_flags sync_type == 0 then done w else do
  (g, calls) ← do_sync fd sp.mode_flags w.g w.calls
  done (record w { g = g; calls = calls })

-- A `ssize_t` holds smaller numbers.
abbrev pub ssize_limit : ℕ
ssize_limit = 2 ^ 63

-- The loop over the iterations, whose writes are of `buf` whole. With no answer left, the last write
-- has not returned yet. A write that takes some of the bytes only ends the loop with `errno` as it is.
-- A sum that a `ssize_t` cannot hold is an undefined behaviour, as an access out of range is.
unfoldable pub iterate :
    ℤ → TestSpec → List ℕ → ℕ → List Answer → ℕ → World → Exec (Option (ℤ × World × List Answer))
iterate fd sp buf zero answers ntotal w = done (some (total_or_error 0 ntotal, w, answers))
iterate fd sp buf (suc left) [] ntotal w = done none
iterate fd sp buf (suc left) (failed e ∷ answers) ntotal w =
    done (some (total_or_error e ntotal, record w { errno = e }, answers))
iterate fd sp buf (suc left) (wrote n ∷ answers) ntotal w =
    let w' = record w { out = w.out ++ take n buf } in
    let sum = ntotal + length buf in
    let more = λ (s : World).
      let rest = iterate fd sp buf left answers sum s in
      if ltb sum ssize_limit then rest else fault in
    if length buf == n
    then sync_after fd sp w' >>= more
    else done (some (total_or_error w.errno ntotal, w', answers))

-- Unless the file is written on, both functions go back to its start; `lseek` may fail.
unfoldable pub write_nbuf :
    Option ℕ → ℤ → List ℕ → TestSpec → List Answer → World → Exec (Option (ℤ × World × List Answer))
unfolding iterate
write_nbuf seek fd buf sp answers w = elim seek [
  | none ↦ iterate fd sp buf sp.niter answers 0 w
  | some e ↦
      if bit_and sp.mode_flags seq_write == 0
      then done (some (minus e, record w { errno = e }, answers))
      else iterate fd sp buf sp.niter answers 0 w
]

-- The length of a vector behind which there are `left` more.
abbrev pub part_len : ℕ → ℕ → ℕ → ℕ
part_len zero chunk_len nleft = nleft
part_len (suc left) chunk_len nleft = chunk_len

-- The loop that fills `iov` from the `i`th vector on, `left` of them being left; `buf` is what `p` leads
-- to. It ends with the vectors and `nleft`.
unfoldable pub split : ℕ → ℕ → ℕ → List ℕ → List (List ℕ) → Exec (List (List ℕ) × ℤ)
split zero i chunk_len buf iov = done (iov, pos (length buf))
split (suc left) i chunk_len [] iov = done (iov, pos 0)
split (suc left) i chunk_len (b ∷ buf) iov =
    let nleft = length (b ∷ buf) in
    let n = part_len left chunk_len nleft in
    let filled = set iov i (take n (b ∷ buf)) in
    let rest = split left (suc i) chunk_len (drop n (b ∷ buf)) filled in
    if not (ltb i (length iov))
    then fault
    else if ltb nleft n
    then done (filled, sub_ℕ nleft n)
    else rest

abbrev pub nothing_left : ℤ → Bool
nothing_left (pos n) = n == 0
nothing_left (negsuc n) = false

abbrev pub concat : List (List ℕ) → List ℕ
concat [] = []
concat (v ∷ iov) = v ++ concat iov

-- `allocated` says whether `calloc` serves the vectors, which are empty at first. They are written as their bytes are.
unfoldable pub writev_nbuf :
    Bool
    → Option ℕ
    → ℤ
    → List ℕ
    → TestSpec
    → List Answer
    → World
    → Exec (Option (ℤ × World × List Answer))
writev_nbuf allocated seek fd buf sp answers w = do
  assert (ltb 1 sp.num_chunks && ltb sp.num_chunks (length buf))
  let chunk_len = length buf / sp.num_chunks
  assert (leb 1 chunk_len)
  let rest =
      if allocated
      then (do
        (iov, nleft) ← split sp.num_chunks 0 chunk_len buf (replicate sp.num_chunks [])
        assert (nothing_left nleft)
        iterate fd sp (concat iov) sp.niter answers 0 w)
      else done (some (negsuc 0, w, answers))
  elim seek [
    | none ↦ rest
    | some e ↦
        if bit_and sp.mode_flags seq_write == 0
        then done (some (minus e, record w { errno = e }, answers))
        else rest
  ]
