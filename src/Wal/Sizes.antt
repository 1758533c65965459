-- ===== src/Wal/Sizes.antt =====
-- How much `run_odsync` of wal/wbuft.c writes and allocates.
use bsl45_misc_tools.Prelude.{
  ℕ, zero, suc, ◌+◌, ◌-◌, ◌*◌, ◌%◌, ◌^◌, ◌≤◌, ◌<◌, ◌≡◌, refl, ◌∙◌, ap, List, [], ◌++◌, true, not,
  ltb, if◌then◌else◌, pos, bit_or, done, none, some, replicate, arith,
}
use bsl45_misc_tools.Wal.Options.{TestSpec, max_bufsz}
use bsl45_misc_tools.Wal.Writing.{Answer, wrote, World}
use bsl45_misc_tools.Wal.Run.{
  System, file, o_creat, o_rdwr, test_rounds, nfalloc, rc_before, stopping, run_odsync,
}

no_rounds :
    (sys : System) (fd : ℕ) (sp : TestSpec) (left ni len : ℕ) (answers : List Answer) (w : World)
    → max_bufsz ≤ len
    → test_rounds sys fd sp left ni len answers w ≡ done (some (pos 0, w, answers))
unfolding test_rounds
no_rounds sys fd sp zero ni len answers w h = refl
no_rounds sys fd sp (suc left) ni len answers w h =
    let large : not (ltb len max_bufsz) ≡ true = ground arith in rw (large) refl

-- With a buffer of the largest size that `main` accepts, and a file that opens, the test writes
-- nothing and ends with 0.
run_odsync-largest :
    (sys : System) (fd : ℕ) (sp : TestSpec) (answers : List Answer) (w : World)
    → sp.len ≡ max_bufsz
    → sys.open_file (bit_or (bit_or o_creat o_rdwr) sp.open_flags) ≡ file fd
    → rc_before sys sp ≡ pos 0
    → run_odsync sys sp answers w ≡ done (some (pos 0, stopping sys sp w, answers))
unfolding run_odsync
run_odsync-largest sys fd sp answers w largest opened ready =
    rw (run_odsync, opened, ready, no_rounds sys fd sp sp.nincr 0 sp.len answers w (omega arith))
      refl

wrapped_short :
    (len x incr niter : ℕ)
    → 0 < x
    → 2 ≤ niter
    → len * niter + x < 2 ^ 64
    → (len * niter + (x + incr * 2 ^ 64)) % 2 ^ 64 < (len + x) * niter
wrapped_short len x incr niter grown iterations fits =
    let (m, twice) : (m : ℕ) × (niter ≡ m + 2) = (niter - 2, omega arith) in
    let last : x * niter ≡ x * m + 2 * x = ap (λ k. x * k) twice ∙ omega arith in omega arith

-- With at least two iterations and two rounds, where the sum does not overflow, fewer bytes are
-- allocated than the iterations of a last round with all the increments write.
nfalloc-short :
    (sp : TestSpec)
    → 2 ≤ sp.niter
    → 2 ≤ sp.nincr
    → 0 < sp.incr
    → sp.len * sp.niter + sp.incr * (sp.nincr - 1) < 2 ^ 64
    → nfalloc sp < (sp.len + sp.incr * (sp.nincr - 1)) * sp.niter
unfolding nfalloc
nfalloc-short sp iterations rounds growing fits =
    let (d, more) : (d : ℕ) × (sp.nincr ≡ suc (suc d)) = (sp.nincr - 2, omega arith) in
    let (m, twice) : (m : ℕ) × (sp.niter ≡ suc (suc m)) = (sp.niter - 2, omega arith) in
    let one_less : sp.nincr - 1 ≡ suc d = omega arith in
    let wrapped : sp.nincr + 2 ^ 64 - 1 ≡ suc d + 2 ^ 64 = omega arith in
    let x = sp.incr * suc d in
    let grown : 0 < x = grind arith in
    let wide : sp.incr * (suc d + 2 ^ 64) ≡ x + sp.incr * 2 ^ 64 = omega arith in
    let same : sp.incr * (sp.nincr - 1) ≡ x = ap (λ k. sp.incr * k) one_less in
    let fits' : sp.len * sp.niter + x < 2 ^ 64 = omega arith in
    rw (wrapped, wide, one_less) (wrapped_short sp.len x sp.incr sp.niter grown iterations fits')

-- The answers of a system that takes each buffer whole.
abbrev pub served : TestSpec → ℕ → ℕ → List Answer
served sp zero len = []
served sp (suc left) len =
    let rest = served sp left (len + sp.incr) in
    if not (ltb len max_bufsz) then [] else replicate sp.niter (wrote len) ++ rest

-- The bytes of the rounds whose buffers are below the largest size: all the iterations of each.
abbrev pub written_bytes : TestSpec → ℕ → ℕ → ℕ
written_bytes sp zero len = 0
written_bytes sp (suc left) len =
    (if ltb len max_bufsz then sp.niter * len else 0) + written_bytes sp left (len + sp.incr)

-- The system serves all but the writes.
pub record IsServing (sys : System) : Type 0 where
  pub malloc : (len : ℕ) → sys.malloc len ≡ true
  pub lseek : (ni : ℕ) → sys.lseek ni ≡ none
  pub calloc : (ni : ℕ) → sys.calloc ni ≡ true
