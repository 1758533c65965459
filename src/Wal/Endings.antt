-- ===== src/Wal/Endings.antt =====
-- That `write_nbuf` of wal/wbuft.c ends.
use bsl45_misc_tools.Prelude.{
  ℕ, zero, suc, ◌+◌, ◌%◌, ◌≤◌, ◌<◌, ◌*◌, ltb, true, ◌≡◌, refl, sym, ◌∙◌, List, [], ◌∷◌, ◌++◌, ◌==◌,
  ℤ, bit_and, done, Option, none, some, length, take, take_all, replicate, arith, append-nil,
  append_assoc, take-take_append, take-past_append, Bool-cases, inl, inr,
}
use bsl45_misc_tools.Wal.Options.{TestSpec, seq_write}
use bsl45_misc_tools.Wal.Writing.{
  Answer, wrote, failed, World, minus, total_or_error, iterate, write_nbuf, concat, ssize_limit,
}
use bsl45_misc_tools.Wal.Rounds.{sync_after_lem, synced, synced-out}

-- Where no option asks for `fsync` and there is an answer for each iteration, `iterate` ends, if the sum of the bytes fits.
iterate_ends :
    (fd : ℤ) (sp : TestSpec) (buf : List ℕ) (left : ℕ) (answers : List Answer) (ntotal : ℕ)
    (w : World)
    → sp.mode_flags % 2 ≡ 0
    → left ≤ length answers
    → ntotal + left * length buf < ssize_limit
    → (rc : ℤ) × (w' : World) × (rest : List Answer) × (m : ℕ) × (iterate fd sp buf left answers
          ntotal w
        ≡ done (some (rc, w', rest)))
      × (w'.out ≡ w.out ++ take m (concat (replicate left buf)))
      × (length answers ≤ length rest + left)
unfolding iterate
iterate_ends fd sp buf zero answers ntotal w h enough small =
    (total_or_error 0 ntotal, w, answers, 0, refl, sym (append-nil w.out), omega arith)
iterate_ends fd sp buf (suc left) [] ntotal w h enough small = absurd (omega arith)
iterate_ends fd sp buf (suc left) (failed e ∷ answers) ntotal w h enough small = (
  total_or_error e ntotal,
  record w { errno = e },
  answers,
  0,
  refl,
  sym (append-nil w.out),
  omega arith,
)
iterate_ends fd sp buf (suc left) (wrote n ∷ answers) ntotal w h enough small =
    elim (Bool-cases (length buf == n)) [
      | inr partly ↦ (
        total_or_error w.errno ntotal,
        record w { out = w.out ++ take n buf },
        answers,
        length (take n buf),
        rw (partly) refl,
        rw (take-take_append n buf (concat (replicate left buf))) refl,
        omega arith,
      )
      | inl whole ↦
          let more : suc left * length buf ≡ length buf + left * length buf = omega arith in
          let sum : ltb (ntotal + length buf) ssize_limit ≡ true = ground (arith, small, more) in
          let all_taken : take n buf ≡ buf = take_all n buf (ground arith) in
          let w' = record w { out = w.out ++ buf } in
          let next =
            iterate_ends fd sp buf left answers (ntotal + length buf) (synced fd sp.mode_flags w') h
              (omega arith) (omega (arith, small, more)) in
          let (rc, w'', rest, m, run, out, used) = next in
          (
            rc,
            w'',
            rest,
            length buf + m,
            rw (whole, all_taken, sync_after_lem fd sp w' h, sum) run,
            out
                ∙ rw
                    (
                      synced-out fd sp.mode_flags w',
                      take-past_append m buf (concat (replicate left buf)),
                    )
                    (append_assoc w.out buf (take m (concat (replicate left buf)))),
            omega (arith, used),
          )
    ]

-- Where no option asks for `fsync`, there is an answer of the system for each iteration, and the sum
-- of all the bytes fits,
-- `write_nbuf` returns, whatever the answers are, and the file has got a prefix of as many copies of
-- the buffer as there are iterations; it has taken an answer for each at most.
pub write_nbuf_ends :
    (seek : Option ℕ) (fd : ℤ) (buf : List ℕ) (sp : TestSpec) (answers : List Answer) (w : World)
    → sp.mode_flags % 2 ≡ 0
    → sp.niter ≤ length answers
    → sp.niter * length buf < ssize_limit
    → (rc : ℤ) × (w' : World) × (rest : List Answer) × (m : ℕ) × (write_nbuf seek fd buf sp answers
          w
        ≡ done (some (rc, w', rest)))
      × (w'.out ≡ w.out ++ take m (concat (replicate sp.niter buf)))
      × (length answers ≤ length rest + sp.niter)
unfolding write_nbuf
write_nbuf_ends none fd buf sp answers w h enough small =
    iterate_ends fd sp buf sp.niter answers 0 w h enough (omega (arith, small))
write_nbuf_ends (some e) fd buf sp answers w h enough small =
    elim (Bool-cases (bit_and sp.mode_flags seq_write == 0)) [
      | inl back ↦ (
        minus e,
        record w { errno = e },
        answers,
        0,
        rw (back) refl,
        sym (append-nil w.out),
        omega arith,
      )
      | inr on ↦
          rw (on) (iterate_ends fd sp buf sp.niter answers 0 w h enough (omega (arith, small)))
    ]
