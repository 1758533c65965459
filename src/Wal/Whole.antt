-- ===== src/Wal/Whole.antt =====
-- The whole of wal/wbuft.c: the settings that `main` accepts keep its assertions.
use bsl45_misc_tools.Prelude.{
  ℕ, subst, sym, ◌<◌, ◌*◌, zero, suc, ◌+◌, ◌*◌, ◌/◌, ◌%◌, ◌≤◌, ◌<◌, ◌≡◌, refl, ap, List, Bool, true,
  false, not, ◌==◌, ltb, leb, if◌then◌else◌, ℤ, pos, negsuc, leb_ℤ, bit_and, bit_or, Exec, done,
  Option, none, some, length, arith, Bool-cases, inl, inr,
}
use bsl45_misc_tools.Wal.Options.{TestSpec, main_checks, runs, max_bufsz, seq_write}
use bsl45_misc_tools.Wal.Settings.{IsSettled, main_checks-IsSettled}
use bsl45_misc_tools.Wal.Writing.{ssize_limit, Answer, World, minus, write_nbuf, writev_nbuf}
use bsl45_misc_tools.Wal.Writes.{writev_nbuf_lem}
use bsl45_misc_tools.Wal.Endings.{write_nbuf_ends}
use bsl45_misc_tools.Wal.Run.{
  System, no_file, file, o_creat, o_rdwr, enomem, random_bytes, write_data, after_round,
  test_rounds, is_zero, rc_before, stopping, at_end, run_odsync, main,
}

-- A run comes to a value, and takes at most so many of the answers.
abbrev pub Ends : Exec (Option (ℤ × World × List Answer)) → List Answer → ℕ → Type 0
Ends run answers most =
    (rc : ℤ) × (w : World) × (rest : List Answer) × (run ≡ done (some (rc, w, rest)))
    × (length answers ≤ length rest + most)

pub length-random_bytes : (rand : ℕ → ℕ) (j n : ℕ) → length (random_bytes rand j n) ≡ n
unfolding random_bytes
length-random_bytes rand j zero = refl
length-random_bytes rand j (suc n) = ap suc (length-random_bytes rand (suc j) n)

-- Without vectors nothing is written.
unallocated-Ends :
    (seek : Option ℕ) (fd : ℤ) (buf : List ℕ) (sp : TestSpec) (answers : List Answer) (w : World)
    → 1 < sp.num_chunks
    → sp.num_chunks < length buf
    → Ends (writev_nbuf false seek fd buf sp answers w) answers sp.niter
unfolding writev_nbuf
unallocated-Ends seek fd buf sp answers w many few =
    let lower : ltb 1 sp.num_chunks ≡ true = ground arith in
    let upper : ltb sp.num_chunks (length buf) ≡ true = ground arith in
    let chunk : leb 1 (length buf / sp.num_chunks) ≡ true = ground arith in
    elim seek as (λ k. Ends (writev_nbuf false k fd buf sp answers w) answers sp.niter) [
      | none ↦ (negsuc 0, w, answers, rw (lower, upper, chunk) refl, omega arith)
      | some e ↦ elim (Bool-cases (bit_and sp.mode_flags seq_write == 0)) [
        | inl back ↦ (
          minus e,
          record w { errno = e },
          answers,
          rw (lower, upper, chunk, back) refl,
          omega arith,
        )
        | inr on ↦ (negsuc 0, w, answers, rw (lower, upper, chunk, on) refl, omega arith)
      ]
    ]

pub times_le : (n a b : ℕ) → a ≤ b → n * a ≤ n * b
times_le zero a b h = omega arith
times_le (suc n) a b h = let rest = times_le n a b h in omega arith

-- Where the sum of the bytes fits for the largest buffer, it fits for each other one.
pub sum_fits :
    (niter len : ℕ) → niter * max_bufsz < ssize_limit → len ≤ max_bufsz → niter * len < ssize_limit
sum_fits niter len small below = omega (arith, small, times_le niter len max_bufsz below)

write_nbuf-Ends :
    (seek : Option ℕ) (fd : ℤ) (buf : List ℕ) (sp : TestSpec) (answers : List Answer) (w : World)
    → sp.mode_flags % 2 ≡ 0
    → sp.niter ≤ length answers
    → sp.niter * length buf < ssize_limit
    → Ends (write_nbuf seek fd buf sp answers w) answers sp.niter
write_nbuf-Ends seek fd buf sp answers w even enough small =
    let (rc, w', rest, m, run, out, used) =
      write_nbuf_ends seek fd buf sp answers w even enough small in
    (rc, w', rest, run, used)

writev_nbuf-Ends :
    (allocated : Bool) (seek : Option ℕ) (fd : ℤ) (buf : List ℕ) (sp : TestSpec)
    (answers : List Answer) (w : World)
    → sp.mode_flags % 2 ≡ 0
    → 1 < sp.num_chunks
    → sp.num_chunks < length buf
    → sp.niter ≤ length answers
    → sp.niter * length buf < ssize_limit
    → Ends (writev_nbuf allocated seek fd buf sp answers w) answers sp.niter
writev_nbuf-Ends false seek fd buf sp answers w even many few enough small =
    unallocated-Ends seek fd buf sp answers w many few
writev_nbuf-Ends true seek fd buf sp answers w even many few enough small =
    rw (writev_nbuf_lem seek fd buf sp answers w many few)
      (write_nbuf-Ends seek fd buf sp answers w even enough small)

write_data-Ends :
    (sys : System) (ni fd len : ℕ) (sp : TestSpec) (answers : List Answer) (w : World)
    → IsSettled sp
    → sp.len ≤ len
    → sp.niter ≤ length answers
    → sp.niter * len < ssize_limit
    → Ends (write_data sys ni fd (random_bytes (sys.rand ni) 0 len) sp answers w) answers sp.niter
unfolding write_data
write_data-Ends sys ni fd len sp answers w h long enough small =
    let buf = random_bytes (sys.rand ni) 0 len in
    let size = length-random_bytes (sys.rand ni) 0 len in
    let sum : sp.niter * length buf < ssize_limit =
      subst (λ n. sp.niter * n < ssize_limit) (sym size) small in
    elim (Bool-cases (ltb 0 sp.num_chunks)) [
      | inl vectors ↦ rw (vectors) (
          writev_nbuf-Ends (sys.calloc ni) (sys.lseek ni) (pos fd) buf sp answers w h.even
            (h.chunks_low (ground arith)) (omega (arith, size, h.chunks_high)) enough sum)
      | inr whole ↦
          rw (whole) (write_nbuf-Ends (sys.lseek ni) (pos fd) buf sp answers w h.even enough sum)
    ]

after_round-Ends :
    (more : List Answer → World → Exec (Option (ℤ × World × List Answer)))
    (run : Exec (Option (ℤ × World × List Answer))) (answers : List Answer) (most more_most : ℕ)
    → Ends run answers most
    → ((rest : List Answer) (w : World)
        → length answers ≤ length rest + most
        → Ends (more rest w) rest more_most)
    → Ends (after_round more run) answers (most + more_most)
after_round-Ends more run answers most more_most (rc, w, rest, e, used) next =
    elim (Bool-cases (leb_ℤ rc (pos 0))) [
      | inl stop ↦ (rc, w, rest, rw (e, stop) refl, omega arith)
      | inr on ↦
          let (rc', w', rest', e', used') = next rest w used in
          (rc', w', rest', rw (e, on) e', omega arith)
    ]

test_rounds-Ends :
    (sys : System) (fd : ℕ) (sp : TestSpec) (left ni len : ℕ) (answers : List Answer) (w : World)
    → IsSettled sp
    → sp.len ≤ len
    → left * sp.niter ≤ length answers
    → sp.niter * max_bufsz < ssize_limit
    → Ends (test_rounds sys fd sp left ni len answers w) answers (left * sp.niter)
unfolding test_rounds
test_rounds-Ends sys fd sp zero ni len answers w h long enough fits =
    (pos 0, w, answers, refl, omega arith)
test_rounds-Ends sys fd sp (suc left) ni len answers w h long enough fits =
    let each : suc left * sp.niter ≡ sp.niter + left * sp.niter = omega arith in
    let more : (rest : List Answer) (w' : World)
        → length answers ≤ length rest + sp.niter
        → Ends (test_rounds sys fd sp left (suc ni) (len + sp.incr) rest w') rest
            (left * sp.niter) =
      λ rest w' used.
        test_rounds-Ends sys fd sp left (suc ni) (len + sp.incr) rest w' h (omega arith)
          (omega arith) fits in
    elim (Bool-cases (not (ltb len max_bufsz))) [
      | inl large ↦ (pos 0, w, answers, rw (large) refl, omega arith)
      | inr small ↦ elim (Bool-cases (not (sys.malloc len))) [
        | inl refused ↦ (pos enomem, w, answers, rw (small, refused) refl, omega arith)
        | inr served ↦
            let (rc, w', rest, e, used) =
              after_round-Ends (test_rounds sys fd sp left (suc ni) (len + sp.incr))
                (write_data sys ni fd (random_bytes (sys.rand ni) 0 len) sp answers w) answers
                sp.niter (left * sp.niter)
                (write_data-Ends sys ni fd len sp answers w h long (omega arith)
                  (sum_fits sp.niter len fits (ground (arith, small))))
                more in
            (rc, w', rest, rw (small, served) e, omega arith)
      ]
    ]

run_odsync-Ends :
    (sys : System) (sp : TestSpec) (answers : List Answer) (w : World)
    → IsSettled sp
    → sp.nincr * sp.niter ≤ length answers
    → sp.niter * max_bufsz < ssize_limit
    → Ends (run_odsync sys sp answers w) answers (sp.nincr * sp.niter)
unfolding run_odsync
run_odsync-Ends sys sp answers w h enough fits =
    elim (sys.open_file (bit_or (bit_or o_creat o_rdwr) sp.open_flags))
      as (λ o.
        Ends
          (elim o [
            | no_file e ↦ done (some (pos e, record w { errno = e }, answers))
            | file fd ↦ at_end sys sp (
                if is_zero (rc_before sys sp)
                then test_rounds sys fd sp sp.nincr 0 sp.len answers w
                else done (some (rc_before sys sp, w, answers)))
          ])
          answers (sp.nincr * sp.niter)) [
            | no_file e ↦ (pos e, record w { errno = e }, answers, refl, omega arith)
            | file fd ↦ elim (Bool-cases (is_zero (rc_before sys sp))) [
              | inl ready ↦
                  let (rc, w', rest, e, used) =
                    test_rounds-Ends sys fd sp sp.nincr 0 sp.len answers w h (omega arith) enough
                      fits in
                  (rc, stopping sys sp w', rest, rw (ready, e) refl, used)
              | inr bad ↦ (rc_before sys sp, stopping sys sp w, answers, rw (bad) refl, omega arith)
            ]
          ]

-- Whatever the command line and the system are, where `main` runs the test, there is an answer to each
-- write that it can make, and the bytes of the iterations with the largest buffer are fewer than 2 ^ 63,
-- the program ends with a value: no assertion fails, no vector is stored outside of its array, and no
-- sum of bytes overflows. It makes at most as many writes as there are rounds times iterations.
pub main-Ends :
    (sys : System) (argc : ℕ) (options : List (ℕ × ℤ)) (operands : List ℤ) (sp : TestSpec)
    (answers : List Answer) (w : World)
    → main_checks argc options operands ≡ runs sp
    → sp.nincr * sp.niter ≤ length answers
    → sp.niter * max_bufsz < ssize_limit
    → Ends (main sys argc options operands answers w) answers (sp.nincr * sp.niter)
unfolding main
main-Ends sys argc options operands sp answers w e enough fits = rw (e) (
    run_odsync-Ends sys sp answers w (main_checks-IsSettled argc options operands sp e) enough fits)
