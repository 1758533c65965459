-- ===== src/FdIo/Input.antt =====
-- `nread` and `npread` of fdwatch/fdio.c. What a descriptor delivers is a list of bytes, of which each
-- answer of the system hands over the next ones.
use bsl45_misc_tools.Prelude.{
  ℕ, zero, suc, ◌+◌, ◌-◌, List, [], ◌∷◌, ◌++◌, Option, none, some, ◌==◌, if◌then◌else◌, ℤ, pos,
  length, take, drop,
}
use bsl45_misc_tools.FdIo.{
  Process, Answer, gives, fails, set_errno, interrupted, give_up_read, restore, eintr,
}

-- How a call ends: its result, the process, the bytes in the buffer, what the descriptor has yet to
-- deliver, and the answers that later calls of the system will get.
pub record Obtained : Type 0 where
  pub result : ℤ
  pub process : Process
  pub buf : List ℕ
  pub source : List ℕ
  pub rest : List Answer

-- The result is the number of bytes in the buffer, on every path.
abbrev pub end_nread : Process → List ℕ → List ℕ → List Answer → Obtained
end_nread p buf source rest = record {
  result = pos (length buf);
  process = p;
  buf = buf;
  source = source;
  rest = rest;
}

-- The loop of `nread`, with the count that is left; `none` means that the last call of `read` has got
-- no answer yet.
unfoldable pub read_loop : ℕ → List Answer → ℕ → Process → List ℕ → List ℕ → Option Obtained
read_loop flags answers zero p buf source = some (end_nread p buf source answers)
read_loop flags [] (suc left) p buf source = none
read_loop flags (gives n ∷ answers) (suc left) p buf source =
    let got = take n (take (suc left) source) in
    let more =
      read_loop flags answers (suc left - length got) p (buf ++ got) (drop (length got) source) in
    if length got == 0 then some (end_nread p buf source answers) else more
read_loop flags (fails e ∷ answers) (suc left) p buf source =
    let again = read_loop flags answers (suc left) (interrupted flags (set_errno e p)) buf source in
    if e == eintr
    then again
    else some (end_nread (restore e (give_up_read flags e (set_errno e p))) buf source answers)

unfoldable pub nread : ℕ → List Answer → ℕ → Process → List ℕ → Option Obtained
unfolding read_loop
nread flags answers count p source = read_loop flags answers count p [] source

-- The loop of `npread`: the bytes come from a place in the file, which moves on.
unfoldable pub pread_loop : ℕ → List Answer → ℕ → ℕ → Process → List ℕ → List ℕ → Option Obtained
pread_loop flags answers zero offset p buf file = some (end_nread p buf file answers)
pread_loop flags [] (suc left) offset p buf file = none
pread_loop flags (gives n ∷ answers) (suc left) offset p buf file =
    let got = take n (take (suc left) (drop offset file)) in
    let more =
      pread_loop flags answers (suc left - length got) (offset + length got) p (buf ++ got) file in
    if length got == 0 then some (end_nread p buf file answers) else more
pread_loop flags (fails e ∷ answers) (suc left) offset p buf file =
    let again =
      pread_loop flags answers (suc left) offset (interrupted flags (set_errno e p)) buf file in
    if e == eintr
    then again
    else some (end_nread (restore e (give_up_read flags e (set_errno e p))) buf file answers)

unfoldable pub npread : ℕ → List Answer → ℕ → ℕ → Process → List ℕ → Option Obtained
unfolding pread_loop
npread flags answers count offset p file = pread_loop flags answers count offset p [] file
