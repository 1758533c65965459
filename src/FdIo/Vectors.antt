-- ===== src/FdIo/Vectors.antt =====
-- What `nwritev` of fdwatch/fdio.c writes, on every sequence of answers of the system.
use bsl45_misc_tools.Prelude.{
  ℕ, zero, suc, ◌+◌, ◌-◌, ◌≤◌, ◌<◌, ◌≡◌, inl, inr, refl, ap, sym, subst, ◌∙◌, List, [], ◌∷◌, ◌++◌,
  some, ◌==◌, ltb, pos, length, take, drop, arith, done, Bool-cases, length-take, length-drop,
}
use bsl45_misc_tools.FdIo.{
  Process, Answer, gives, fails, set_errno, interrupted, give_up_write, eintr,
}
use bsl45_misc_tools.FdIo.Output.{
  Written, minus_one, pass_written, concat, end_nwritev, writev_loop, nwritev,
}
use bsl45_misc_tools.FdIo.Writes.{progress, WritesPrefix, WritesPrefix-append, nothing_sent}

drop-append_short : (n : ℕ) (v w : List ℕ) → n < length v → drop n v ++ w ≡ drop n (v ++ w)
drop-append_short zero v w h = refl
drop-append_short (suc n) [] w h = absurd (omega arith)
drop-append_short (suc n) (x ∷ v) w h = drop-append_short n v w (omega arith)

drop-append_long : (n : ℕ) (v w : List ℕ) → length v ≤ n → drop (n - length v) w ≡ drop n (v ++ w)
drop-append_long n [] w h = let e : n - 0 ≡ n = omega arith in ap (λ k. drop k w) e
drop-append_long zero (x ∷ v) w h = absurd (omega arith)
drop-append_long (suc n) (x ∷ v) w h =
    let e : suc n - suc (length v) ≡ n - length v = omega arith in
    ap (λ k. drop k w) e ∙ drop-append_long n v w (omega arith)

-- The vectors that are left hold the bytes that are left.
pub concat-pass_written :
    (n : ℕ) (iov : List (List ℕ)) → concat (pass_written n iov) ≡ drop n (concat iov)
unfolding pass_written
concat-pass_written zero [] = refl
concat-pass_written (suc n) [] = refl
concat-pass_written n (v ∷ iov) = elim (Bool-cases (ltb n (length v))) [
  | inl cut ↦ rw cut (drop-append_short n v (concat iov) (ground arith))
  | inr whole ↦
      rw whole
        (concat-pass_written (n - length v) iov ∙ drop-append_long n v (concat iov) (ground arith))
]

take-length-take : (n : ℕ) (xs : List ℕ) → xs ≡ take n xs ++ drop (length (take n xs)) xs
take-length-take zero xs = refl
take-length-take (suc n) [] = refl
take-length-take (suc n) (x ∷ xs) = ap (λ l. x ∷ l) (take-length-take n xs)

progress_step :
    (a : Answer) (answers : List Answer) → progress (a ∷ answers) ≤ suc (progress answers)
unfolding progress
progress_step (gives zero) answers = omega arith
progress_step (gives (suc n)) answers = omega arith
progress_step (fails e) answers = ground arith

writev_loop_ends :
    (flags : ℕ) (answers : List Answer) (iov : List (List ℕ)) (total : ℕ) (p : Process)
    (out : List ℕ)
    → p.errno ≡ 0
    → length (concat iov) < progress answers
    → (w : Written) × (writev_loop flags answers iov total p out ≡ some w)
      × WritesPrefix (concat iov) total out w
unfolding writev_loop progress end_nwritev interrupted
writev_loop_ends flags answers [] total p out z h =
    let w = end_nwritev (pos 0) 0 total p out answers in
    (w, refl, nothing_sent [] out total w refl (inl refl))
writev_loop_ends flags [] (v ∷ iov) total p out z h = absurd (omega arith)
writev_loop_ends flags (gives n ∷ answers) (v ∷ iov) total p out z h =
    let sent = take n (concat (v ∷ iov)) in
    elim (Bool-cases (length sent == 0)) [
      | inl nothing ↦
          let w = end_nwritev (pos 0) 0 total (give_up_write flags 0 p) out answers in
          (w, rw (nothing, z) refl, nothing_sent (concat (v ∷ iov)) out total w refl (inl refl))
      | inr some_sent ↦
          let left = concat-pass_written (length sent) (v ∷ iov) in
          let shorter : length (concat (pass_written (length sent) (v ∷ iov))) < progress answers =
            ground (
              arith,
              ap length left,
              length-drop (length sent) (concat (v ∷ iov)),
              length-take n (concat (v ∷ iov)),
              progress_step (gives n) answers,
            ) in
          let (w, e, s) =
            writev_loop_ends flags answers (pass_written (length sent) (v ∷ iov))
              (total + length sent) p (out ++ sent) z shorter in
          (
            w,
            rw some_sent e,
            subst (λ l. WritesPrefix l total out w) (sym (take-length-take n (concat (v ∷ iov))))
                (WritesPrefix-append sent (drop (length sent) (concat (v ∷ iov))) out total w
                  (subst (λ l. WritesPrefix l (total + length sent) (out ++ sent) w) left s)),
          )
    ]
writev_loop_ends flags (fails zero ∷ answers) (v ∷ iov) total p out z h =
    let w = end_nwritev minus_one 0 total (give_up_write flags 0 (set_errno 0 p)) out answers in
    (w, refl, nothing_sent (concat (v ∷ iov)) out total w refl (inl refl))
writev_loop_ends flags (fails (suc e) ∷ answers) (v ∷ iov) total p out z h =
    elim (Bool-cases (suc e == eintr)) [
      | inl again ↦
          let left = concat-pass_written 0 (v ∷ iov) in
          let (w, eq, s) =
            writev_loop_ends flags answers (pass_written 0 (v ∷ iov)) total
              (interrupted flags (set_errno (suc e) p)) out refl (ground (arith, ap length left)) in
          (w, rw again eq, subst (λ l. WritesPrefix l total out w) left s)
      | inr over ↦
          let p' = give_up_write flags (suc e) (set_errno (suc e) p) in
          let w = end_nwritev minus_one (suc e) total p' out answers in
          (w, rw over refl, nothing_sent (concat (v ∷ iov)) out total w refl (inr refl))
    ]

-- Given more answers that end the loop or move a byte at least than there are bytes, and `errno` 0 at
-- the start, `nwritev` returns, whatever the other answers are: it has written a prefix of the vectors,
-- joined in order, and returns its length or -1.
pub nwritev_ends :
    (flags : ℕ) (answers : List Answer) (v : List ℕ) (iov : List (List ℕ)) (p : Process)
    (out : List ℕ)
    → p.errno ≡ 0
    → length (concat (v ∷ iov)) < progress answers
    → (w : Written) × (nwritev flags answers (v ∷ iov) p out ≡ done (some w))
      × WritesPrefix (concat (v ∷ iov)) 0 out w
unfolding nwritev
nwritev_ends flags answers v iov p out z h =
    let (w, e, s) = writev_loop_ends flags answers (v ∷ iov) 0 p out z h in (w, ap done e, s)
