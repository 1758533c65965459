-- ===== src/FdIo/Streams.antt =====
-- Reads from a stream in fdwatch/fdio.c that the system serves, and `transfer` of a portion of one.
use bsl45_misc_tools.Prelude.{
  ℕ, zero, suc, ◌-◌, ◌≤◌, ◌≡◌, inl, inr, refl, ap, sym, ◌∙◌, List, [], ◌∷◌, ◌++◌, true, false, none,
  some, ◌==◌, pos, length, take, drop, arith, All, append-nil, append_assoc, length-take, Option,
  Exec, done,
}
use bsl45_misc_tools.FdIo.{
  Process, Answer, gives, fails, set_errno, interrupted, eintr, restore, has_flag, fdio_sendfile,
}
use bsl45_misc_tools.FdIo.Input.{Obtained, end_nread, read_loop, nread}
use bsl45_misc_tools.FdIo.Writes.{progress, IsServed, nwrite-whole}
use bsl45_misc_tools.FdIo.Reads.{handed_over, npread_lem, of_file, take-take-drop}
use bsl45_misc_tools.FdIo.Transfer.{
  Moved, portion, end_transfer, move_offset, read_portion, transfer,
}
use bsl45_misc_tools.FdIo.Copies.{after_read-nothing, after_read-some, length_cases, source_at}

pub take-append_short :
    (n : ℕ) (xs ys : List ℕ) → length xs ≤ n → take n (xs ++ ys) ≡ xs ++ take (n - length xs) ys
take-append_short n [] ys h = ap (λ k. take k ys) (omega arith)
take-append_short zero (x ∷ xs) ys h = absurd (omega (arith, h))
take-append_short (suc n) (x ∷ xs) ys h =
    ap (λ l. x ∷ l)
      (take-append_short n xs ys (omega arith) ∙ ap (λ k. xs ++ take k ys) (omega arith))

drop-append_short :
    (n : ℕ) (xs ys : List ℕ) → length xs ≤ n → drop n (xs ++ ys) ≡ drop (n - length xs) ys
drop-append_short n [] ys h = ap (λ k. drop k ys) (omega arith)
drop-append_short zero (x ∷ xs) ys h = absurd (omega (arith, h))
drop-append_short (suc n) (x ∷ xs) ys h =
    drop-append_short n xs ys (omega arith) ∙ ap (λ k. drop k ys) (omega arith)

-- As many bytes as asked for, or all that are left, and no error.
abbrev pub ReadsAll : ℕ → Process → List ℕ → List ℕ → Obtained → Type 0
ReadsAll n p buf source r =
    (r.buf ≡ buf ++ take n source)
    × (r.source ≡ drop n source)
    × (r.result ≡ pos (length r.buf))
    × (p.errno ≡ 0 → r.process.errno ≡ 0)

read_loop_served :
    (flags : ℕ) (answers : List Answer) (left : ℕ) (p : Process) (buf source : List ℕ)
    → All IsServed answers
    → left ≤ progress answers
    → (r : Obtained) × (read_loop flags answers left p buf source ≡ some r)
      × ReadsAll left p buf source r
unfolding read_loop progress interrupted
read_loop_served flags answers zero p buf source s h =
    (end_nread p buf source answers, refl, (sym (append-nil buf), refl, refl, λ z. z))
read_loop_served flags [] (suc left) p buf source s h = absurd (omega arith)
read_loop_served flags (gives zero ∷ answers) (suc left) p buf source s h = absurd (s.0)
read_loop_served flags (gives (suc n) ∷ answers) (suc left) p buf [] s h =
    (end_nread p buf [] answers, refl, (sym (append-nil buf), refl, refl, λ z. z))
read_loop_served flags (gives (suc n) ∷ answers) (suc left) p buf (x ∷ xs) s h =
    let got = take n (take left xs) in
    let next = drop (length got) xs in
    let fits = (take-take-drop n left xs).1 in
    let (r, e, (b, t, k, z)) =
      read_loop_served flags answers (left - length got) p (buf ++ (x ∷ got)) next s.1
        (omega (arith, fits)) in
    let whole = handed_over n left xs in
    let some_read : (length (x ∷ got) == 0) ≡ false = ground arith in
    let one_less : suc left - length (x ∷ got) ≡ left - length got = omega arith in
    (
      r,
      rw some_read (ap (λ m. read_loop flags answers m p (buf ++ (x ∷ got)) next) one_less ∙ e),
      (
        b
            ∙ append_assoc buf (x ∷ got) (take (left - length got) next)
            ∙ ap (λ l. buf ++ (x ∷ l))
                (sym (take-append_short left got next fits) ∙ ap (λ l. take left l) (sym whole)),
        t ∙ sym (drop-append_short left got next fits) ∙ ap (λ l. drop left l) (sym whole),
        k,
        z,
      ),
    )
read_loop_served flags (fails e ∷ answers) (suc left) p buf source s h =
    let again : (e == eintr) ≡ true = ground (arith, s.0) in
    let (r, eq, (b, t, k, z)) =
      read_loop_served flags answers (suc left) (interrupted flags (set_errno e p)) buf source s.1
        (ground arith) in
    (r, rw again eq, (b, t, k, λ zero_before. z refl))

pub nread-served :
    (flags : ℕ) (answers : List Answer) (n : ℕ) (p : Process) (source : List ℕ)
    → All IsServed answers
    → n ≤ progress answers
    → (r : Obtained) × (nread flags answers n p source ≡ some r)
      × (r.buf ≡ take n source)
      × (r.source ≡ drop n source)
      × (r.result ≡ pos (length r.buf))
unfolding nread
nread-served flags answers n p source s h =
    let (r, e, (b, t, k, z)) = read_loop_served flags answers n p [] source s h in (r, e, b, t, k)

-- What is left of the source after `n` bytes: a stream is used up, a file is not.
abbrev pub source_after : Option ℕ → ℕ → List ℕ → List ℕ
source_after none n source = drop n source
source_after (some offset) n file = file

read_portion-served :
    (flags : ℕ) (offset : Option ℕ) (n : ℕ) (p : Process) (source : List ℕ) (reads : List Answer)
    → All IsServed reads
    → n ≤ progress reads
    → (r : Obtained) × (read_portion flags offset n p source reads ≡ some r)
      × (r.buf ≡ take n (source_at offset source))
      × (r.source ≡ source_after offset n source)
      × (r.result ≡ pos (length r.buf))
      × (p.errno ≡ 0 → r.process.errno ≡ 0)
unfolding nread
read_portion-served flags none n p source reads s h =
    let (r, e, (b, t, k, z)) = read_loop_served flags reads n p [] source s h in (r, e, b, t, k, z)
read_portion-served flags (some offset) n p file reads s h =
    let (r, e, (b, t, k, z)) = read_loop_served flags reads n p [] (drop offset file) s h in
    (
      record r { source = file },
      npread_lem flags reads n offset p file ∙ ap (of_file file) e,
      b,
      refl,
      k,
      z,
    )

-- What a transfer of `n` bytes comes to: they are at the end of the output, and `errno` is 0.
abbrev pub Moves : Option ℕ → ℕ → List ℕ → List ℕ → Moved → Type 0
Moves offset n out source m =
    (m.out ≡ out ++ take n (source_at offset source))
    × (m.source ≡ source_after offset n source)
    × (m.result ≡ pos (length (take n (source_at offset source))))
    × (m.offset ≡ move_offset offset m.result)
    × (m.process.errno ≡ 0)

-- Where `errno` is 0 before and the system serves each call or interrupts it, with an answer for each
-- byte of the portion, `transfer` without `sendfile` copies the next bytes of the source, a whole
-- portion of them or all that there are, to the output, each once and in order. A stream goes on
-- behind them, and a file is as it was; `transfer` returns their number, the offset, if there is
-- one, moves by it, and `errno` is 0.
pub transfer_lem :
    (sendfile : Option ℕ → ℕ → Process → Exec (Option Moved)) (flags : ℕ) (offset : Option ℕ)
    (count : ℕ) (p : Process) (out source : List ℕ) (reads writes : List Answer)
    → has_flag flags fdio_sendfile ≡ false
    → p.errno ≡ 0
    → All IsServed reads
    → All IsServed writes
    → portion count ≤ progress reads
    → portion count ≤ progress writes
    → (m : Moved) × (transfer sendfile flags offset count p out source reads writes ≡ done (some m))
      × Moves offset (portion count) out source m
unfolding transfer end_transfer restore
transfer_lem sendfile flags offset count p out source reads writes hf hz hr hw nr nw =
    let n = portion count in
    let next = source_at offset source in
    let (r, e, b, t, k, keeps) = read_portion-served flags offset n p source reads hr nr in
    let no_error = keeps hz in
    elim (length_cases r.buf) [
      | inl nothing ↦
          let none_read : take n next ≡ [] = sym b ∙ nothing in
          (
            end_transfer offset (pos 0) r.process.errno r.process out r.source,
            rw (hf, e)
                (after_read-nothing flags offset out writes r
                  (k ∙ ap (λ l. pos (length l)) nothing)),
            (
              sym (append-nil out) ∙ ap (λ l. out ++ l) (sym none_read),
              t,
              ap (λ l. pos (length l)) (sym none_read),
              refl,
              ap (λ err. (restore err r.process).errno) no_error ∙ no_error,
            ),
          )
      | inr (m, some_bytes) ↦
          let (w, ew, ow, rw', z) =
            nwrite-whole flags writes r.buf r.process out hw
              (omega (arith, ap (λ l. length l) b, length-take n next)) in
          let counted = k ∙ ap pos some_bytes in
          (
            end_transfer offset (pos (suc m)) 0 w.process w.out r.source,
            rw (hf, e)
                (after_read-some flags offset out writes r m w counted no_error ew
                  (rw' ∙ ap pos some_bytes)),
            (
              ow ∙ ap (λ l. out ++ l) b,
              t,
              ap pos (sym some_bytes) ∙ ap (λ l. pos (length l)) b,
              refl,
              z no_error,
            ),
          )
    ]
