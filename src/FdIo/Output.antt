-- ===== src/FdIo/Output.antt =====
-- `nwrite` and `nwritev` of fdwatch/fdio.c. The bytes that reach the file are collected in `out`.
use bsl45_misc_tools.Prelude.{
  ℕ, zero, suc, ◌+◌, ◌-◌, List, [], ◌∷◌, ◌++◌, Option, none, some, ◌==◌, ltb, if◌then◌else◌, ℤ, pos,
  negsuc, length, take, drop, Exec, done, abort,
}
use bsl45_misc_tools.FdIo.{
  Process, Answer, gives, fails, set_errno, interrupted, give_up_write, restore, eintr,
}

-- How a call ends: its result, the process, the bytes written so far, and the answers that later calls
-- of the system will get.
pub record Written : Type 0 where
  pub result : ℤ
  pub process : Process
  pub out : List ℕ
  pub rest : List Answer

abbrev pub minus_one : ℤ
minus_one = negsuc 0

-- After the loop of `nwrite`: the result is the last one of `write` if that is negative.
unfoldable pub end_nwrite : ℤ → ℕ → ℕ → Process → List ℕ → List Answer → Written
end_nwrite (pos n) err total p out rest = record {
  result = pos total;
  process = restore err p;
  out = out;
  rest = rest;
}
end_nwrite (negsuc n) err total p out rest = record {
  result = negsuc n;
  process = restore err p;
  out = out;
  rest = rest;
}

-- The loop of `nwrite`, on the bytes that are left; `none` means that the last call of `write` has got
-- no answer yet. `err` is what the last interrupted round has left: 0.
unfoldable pub write_loop : ℕ → List Answer → List ℕ → ℕ → Process → List ℕ → Option Written
write_loop flags answers [] total p out = some (end_nwrite (pos total) 0 total p out answers)
write_loop flags [] (b ∷ left) total p out = none
write_loop flags (gives zero ∷ answers) (b ∷ left) total p out =
    let again = write_loop flags answers (b ∷ left) total (interrupted flags p) out in
    if p.errno == eintr
    then again
    else some (end_nwrite (pos 0) p.errno total (give_up_write flags p.errno p) out answers)
write_loop flags (gives (suc n) ∷ answers) (b ∷ left) total p out =
    write_loop flags answers (drop n left) (total + length (take (suc n) (b ∷ left))) p
      (out ++ take (suc n) (b ∷ left))
write_loop flags (fails e ∷ answers) (b ∷ left) total p out =
    let again = write_loop flags answers (b ∷ left) total (interrupted flags (set_errno e p)) out in
    if e == eintr
    then again
    else some (end_nwrite minus_one e total (give_up_write flags e (set_errno e p)) out answers)

unfoldable pub nwrite : ℕ → List Answer → List ℕ → Process → List ℕ → Option Written
unfolding write_loop
nwrite flags answers buf p out = write_loop flags answers buf 0 p out

-- The loop over the vectors that `n` bytes have been written from: those that were written whole are
-- passed, and one that was begun is cut.
unfoldable pub pass_written : ℕ → List (List ℕ) → List (List ℕ)
pass_written n [] = []
pass_written n (v ∷ iov) =
    let rest = pass_written (n - length v) iov in if ltb n (length v) then drop n v ∷ iov else rest

abbrev pub concat : List (List ℕ) → List ℕ
concat [] = []
concat (v ∷ iov) = v ++ concat iov

-- After the loop of `nwritev`.
unfoldable pub end_nwritev : ℤ → ℕ → ℕ → Process → List ℕ → List Answer → Written
end_nwritev nbytes zero total p out rest = record {
  result = pos total;
  process = p;
  out = out;
  rest = rest;
}
end_nwritev nbytes (suc err) total p out rest = record {
  result = nbytes;
  process = set_errno (suc err) p;
  out = out;
  rest = rest;
}

-- The loop of `nwritev`. A round that is interrupted passes the empty vectors only.
unfoldable pub writev_loop : ℕ → List Answer → List (List ℕ) → ℕ → Process → List ℕ → Option Written
writev_loop flags answers [] total p out = some (end_nwritev (pos 0) 0 total p out answers)
writev_loop flags [] (v ∷ iov) total p out = none
writev_loop flags (gives n ∷ answers) (v ∷ iov) total p out =
    let sent = take n (concat (v ∷ iov)) in
    let again =
      writev_loop flags answers (pass_written 0 (v ∷ iov)) total (interrupted flags p) out in
    let more =
      writev_loop flags answers (pass_written (length sent) (v ∷ iov)) (total + length sent) p
        (out ++ sent) in
    if length sent == 0
    then (if p.errno == eintr
        then again
        else some (end_nwritev (pos 0) p.errno total (give_up_write flags p.errno p) out answers))
    else more
writev_loop flags (fails e ∷ answers) (v ∷ iov) total p out =
    let again =
      writev_loop flags answers (pass_written 0 (v ∷ iov)) total (interrupted flags (set_errno e p))
        out in
    if e == eintr
    then again
    else some (end_nwritev minus_one e total (give_up_write flags e (set_errno e p)) out answers)

-- The vectors are those that `iov` and `iovcnt` stand for, and there is at least one.
unfoldable pub nwritev : ℕ → List Answer → List (List ℕ) → Process → List ℕ → Exec (Option Written)
unfolding writev_loop
nwritev flags answers [] p out = abort
nwritev flags answers (v ∷ iov) p out = done (writev_loop flags answers (v ∷ iov) 0 p out)
