-- ===== src/Wal/Rounds.antt =====
-- What the writes of wal/wbuft.c come to: `write_nbuf`, `writev_nbuf` and `do_sync` after them.
use bsl45_misc_tools.Prelude.{
  ℕ, zero, suc, ◌+◌, ◌*◌, ◌%◌, ◌<◌, ltb, ◌≡◌, refl, sym, ◌∙◌, ap, List, [], ◌∷◌, ◌++◌, true, false,
  ◌==◌, if◌then◌else◌, ℤ, bit_and, bit_and_mask, done, length, take, take_all, replicate, arith,
  append-nil, append_assoc, Bool-cases, inl, inr,
}
use bsl45_misc_tools.Wal.Options.{TestSpec, sync_type, sync_thread}
use bsl45_misc_tools.Wal.Sync.{fdatasync, sync, fd_sync, do_sync, toggle_sync_thread}
use bsl45_misc_tools.Wal.Writing.{Answer, wrote, World, sync_after, iterate, concat, ssize_limit}

-- The bits of the kind of sync are a remainder, which is 0 or 2 where no option asks for `fsync`.
pub sync_bits : (flags : ℕ) → bit_and flags sync_type ≡ flags % 4
sync_bits flags = bit_and_mask 2 flags

pub fd_sync-data :
    (fd : ℤ) (flags : ℕ) → flags % 4 ≡ 2 → fd_sync fd flags ≡ done (fdatasync fd ∷ [])
unfolding fd_sync
fd_sync-data fd flags h = let e : bit_and flags sync_type ≡ 2 = sync_bits flags ∙ h in rw (e) refl

-- The world after a file has been synchronised.
abbrev pub synced : ℤ → ℕ → World → World
synced fd flags w =
    if flags % 4 == 0
    then w
    else if bit_and flags sync_thread == 0
    then record w { calls = w.calls ++ fdatasync fd ∷ [] }
    else record w { g = toggle_sync_thread fd flags sync w.g }

-- The world after `k` writes of the whole buffer.
abbrev pub after_writes : ℤ → ℕ → List ℕ → ℕ → World → World
after_writes fd flags buf zero w = w
after_writes fd flags buf (suc k) w =
    after_writes fd flags buf k (synced fd flags (record w { out = w.out ++ buf }))

pub synced-out : (fd : ℤ) (flags : ℕ) (w : World) → (synced fd flags w).out ≡ w.out
synced-out fd flags w = ground arith

pub synced-errno : (fd : ℤ) (flags : ℕ) (w : World) → (synced fd flags w).errno ≡ w.errno
synced-errno fd flags w = ground arith

pub sync_after_lem :
    (fd : ℤ) (sp : TestSpec) (w : World)
    → sp.mode_flags % 2 ≡ 0
    → sync_after fd sp w ≡ done (synced fd sp.mode_flags w)
unfolding sync_after do_sync
sync_after_lem fd sp w h = elim (Bool-cases (sp.mode_flags % 4 == 0)) [
  | inl e ↦
      let none_asked : (bit_and sp.mode_flags sync_type == 0) ≡ true =
        ap (λ b. b == 0) (sync_bits sp.mode_flags) ∙ e in
      rw (e, none_asked) refl
  | inr e ↦
      let asked : (bit_and sp.mode_flags sync_type == 0) ≡ false =
        ap (λ b. b == 0) (sync_bits sp.mode_flags) ∙ e in
      let two : sp.mode_flags % 4 ≡ 2 = ground arith in
      elim (Bool-cases (bit_and sp.mode_flags sync_thread == 0)) [
        | inl direct ↦ rw (e, asked, direct, fd_sync-data fd sp.mode_flags two) refl
        | inr told ↦ rw (e, asked, told) refl
      ]
]

-- What the writing functions do on `k` writes of the whole buffer, before any other answers.
pub iterate-whole :
    (fd : ℤ) (sp : TestSpec) (buf : List ℕ) (k left : ℕ) (answers : List Answer) (ntotal : ℕ)
    (w : World)
    → sp.mode_flags % 2 ≡ 0
    → k * length buf + ntotal < ssize_limit
    → iterate fd sp buf (k + left) (replicate k (wrote (length buf)) ++ answers) ntotal w
      ≡ iterate fd sp buf left answers
          (k * length buf + ntotal)
          (after_writes fd sp.mode_flags buf k w)
unfolding iterate
iterate-whole fd sp buf zero left answers ntotal w h small =
    let e : 0 + left ≡ left = omega arith in
    let t : 0 * length buf + ntotal ≡ ntotal = omega arith in rw (e, t) refl
iterate-whole fd sp buf (suc k) left answers ntotal w h small =
    let whole : (length buf == length buf) ≡ true = ground arith in
    let all_taken : take (length buf) buf ≡ buf = take_all (length buf) buf (omega arith) in
    let w' = record w { out = w.out ++ buf } in
    let total : k * length buf + (ntotal + length buf) ≡ suc k * length buf + ntotal =
      omega arith in
    let sum : ltb (ntotal + length buf) ssize_limit ≡ true = ground (arith, small, total) in
    let next : suc k + left ≡ suc (k + left) = omega arith in
    rw (next, whole, all_taken, sync_after_lem fd sp w' h, sum)
      (iterate-whole fd sp buf k left answers (ntotal + length buf) (synced fd sp.mode_flags w') h
          (omega (arith, small, total))
        ∙ ap (λ t. iterate fd sp buf left answers t (after_writes fd sp.mode_flags buf (suc k) w))
            total)

-- The bytes that `k` writes leave.
pub after_writes-out :
    (fd : ℤ) (flags : ℕ) (buf : List ℕ) (k : ℕ) (w : World)
    → (after_writes fd flags buf k w).out ≡ w.out ++ concat (replicate k buf)
after_writes-out fd flags buf zero w = sym (append-nil w.out)
after_writes-out fd flags buf (suc k) w =
    let w' = synced fd flags (record w { out = w.out ++ buf }) in
    let same : w'.out ≡ w.out ++ buf = synced-out fd flags (record w { out = w.out ++ buf }) in
    after_writes-out fd flags buf k w'
    ∙ rw (same) (append_assoc w.out buf (concat (replicate k buf)))

pub after_writes-errno :
    (fd : ℤ) (flags : ℕ) (buf : List ℕ) (k : ℕ) (w : World)
    → (after_writes fd flags buf k w).errno ≡ w.errno
after_writes-errno fd flags buf zero w = refl
after_writes-errno fd flags buf (suc k) w =
    let written = record w { out = w.out ++ buf } in
    after_writes-errno fd flags buf k (synced fd flags written) ∙ synced-errno fd flags written

-- Without the thread, each write is followed by a call to synchronise the file.
pub after_writes-calls :
    (fd : ℤ) (flags : ℕ) (buf : List ℕ) (k : ℕ) (w : World)
    → flags % 4 ≡ 2
    → bit_and flags sync_thread ≡ 0
    → (after_writes fd flags buf k w).calls ≡ w.calls ++ replicate k (fdatasync fd)
after_writes-calls fd flags buf zero w h direct = sym (append-nil w.calls)
after_writes-calls fd flags buf (suc k) w h direct =
    let written = record w { out = w.out ++ buf } in
    let same : (synced fd flags written).calls ≡ w.calls ++ fdatasync fd ∷ [] =
      rw (h, direct) refl in
    after_writes-calls fd flags buf k (synced fd flags written) h direct
    ∙ rw (same) (append_assoc w.calls (fdatasync fd ∷ []) (replicate k (fdatasync fd)))
