-- ===== src/FdIo/Reads.antt =====
-- What `nread` and `npread` of fdwatch/fdio.c read, on every sequence of answers of the system.
use bsl45_misc_tools.Prelude.{
  ℕ, zero, suc, All, ◌≢◌, ◌+◌, ◌-◌, ◌≤◌, ◌≡◌, refl, ap, sym, ◌∙◌, List, [], ◌∷◌, ◌++◌, false,
  Option, none, some, ◌==◌, pos, length, take, drop, arith, Bool-cases, append-nil, append_assoc,
  length-append, take-append-drop, drop-drop, inl, inr,
}
use bsl45_misc_tools.FdIo.{
  Process, Answer, gives, fails, set_errno, interrupted, give_up_read, restore, eintr,
}
use bsl45_misc_tools.FdIo.Input.{Obtained, end_nread, read_loop, nread, pread_loop, npread}
use bsl45_misc_tools.FdIo.Writes.{progress, IsServed}

-- The bytes that are read are the next of the source, at most as many as asked for: none is lost, and
-- the result is their number.
abbrev pub ReadsNext : ℕ → List ℕ → List ℕ → Obtained → Type 0
ReadsNext left buf source r =
    (got : List ℕ) × (r.buf ≡ buf ++ got)
    × (source ≡ got ++ r.source)
    × (length got ≤ left)
    × (r.result ≡ pos (length r.buf))

nothing_read :
    (left : ℕ) (p : Process) (buf source : List ℕ) (answers : List Answer)
    → ReadsNext left buf source (end_nread p buf source answers)
nothing_read left p buf source answers = ([], sym (append-nil buf), refl, omega arith, refl)

-- A round that has read some bytes goes before the rest.
ReadsNext-append :
    (left : ℕ) (first next buf source : List ℕ) (r : Obtained)
    → source ≡ first ++ next
    → length first ≤ left
    → ReadsNext (left - length first) (buf ++ first) next r
    → ReadsNext left buf source r
ReadsNext-append left first next buf source r c h (got, b, s, l, e) = (
  first ++ got,
  b ∙ append_assoc buf first got,
  c ∙ ap (λ t. first ++ t) s ∙ sym (append_assoc first got r.source),
  omega (arith, length-append first got),
  e,
)

pub take-take-drop :
    (n m : ℕ) (xs : List ℕ)
    → (take n (take m xs) ≡ take (length (take n (take m xs))) xs)
      × (length (take n (take m xs)) ≤ m)
take-take-drop zero m xs = (refl, omega arith)
take-take-drop (suc n) zero xs = (refl, omega arith)
take-take-drop (suc n) (suc m) [] = (refl, omega arith)
take-take-drop (suc n) (suc m) (x ∷ xs) =
    let rest = take-take-drop n m xs in (ap (λ l. x ∷ l) rest.0, omega (arith, rest.1))

-- What a call of `read` hands over is cut from the front of the source.
pub handed_over :
    (n m : ℕ) (xs : List ℕ) → xs ≡ take n (take m xs) ++ drop (length (take n (take m xs))) xs
handed_over n m xs =
    let k = length (take n (take m xs)) in
    sym (take-append-drop k xs) ∙ ap (λ l. l ++ drop k xs) (sym ((take-take-drop n m xs).0))

-- An answer that hands something over.
abbrev pub IsGiven : Answer → Type 0
IsGiven (gives zero) = ⊥
IsGiven (gives (suc n)) = Unit {0}
IsGiven (fails e) = ⊥

-- What the caller finds in `errno`: 0 stays, where interruptions are the only errors, and so does any
-- value, where there is no error.
abbrev pub KeepsErrno : List Answer → Process → Obtained → Type 0
KeepsErrno answers p r =
    (All IsServed answers → p.errno ≡ 0 → r.process.errno ≡ 0)
    × (All IsGiven answers → r.process.errno ≡ p.errno)

unchanged_errno :
    (answers : List Answer) (p : Process)
    → (All IsServed answers → p.errno ≡ 0 → p.errno ≡ 0) × (All IsGiven answers → p.errno ≡ p.errno)
unchanged_errno answers p = ((λ served z. z), λ given. refl)

not_interrupted : (e : ℕ) → (e == eintr) ≡ false → e ≢ eintr
not_interrupted e h k = ground arith

read_loop_ends :
    (flags : ℕ) (answers : List Answer) (left : ℕ) (p : Process) (buf source : List ℕ)
    → left ≤ progress answers
    → (r : Obtained) × (read_loop flags answers left p buf source ≡ some r)
      × ReadsNext left buf source r
      × KeepsErrno answers p r
unfolding read_loop progress interrupted
read_loop_ends flags answers zero p buf source h = (
  end_nread p buf source answers,
  refl,
  nothing_read 0 p buf source answers,
  unchanged_errno answers p,
)
read_loop_ends flags [] (suc left) p buf source h = absurd (omega arith)
read_loop_ends flags (gives zero ∷ answers) (suc left) p buf source h = (
  end_nread p buf source answers,
  refl,
  nothing_read (suc left) p buf source answers,
  unchanged_errno (gives zero ∷ answers) p,
)
read_loop_ends flags (gives (suc n) ∷ answers) (suc left) p buf source h =
    let got = take (suc n) (take (suc left) source) in
    elim (Bool-cases (length got == 0)) [
      | inl over ↦ (
        end_nread p buf source answers,
        rw over refl,
        nothing_read (suc left) p buf source answers,
        unchanged_errno (gives (suc n) ∷ answers) p,
      )
      | inr more ↦
          let (r, e, s, k) =
            read_loop_ends flags answers (suc left - length got) p (buf ++ got)
              (drop (length got) source) (ground arith) in
          (
            r,
            rw more e,
            ReadsNext-append (suc left) got (drop (length got) source) buf source r
                (handed_over (suc n) (suc left) source)
                ((take-take-drop (suc n) (suc left) source).1) s,
            ((λ served z. k.0 served.1 z), λ given. k.1 given.1),
          )
    ]
read_loop_ends flags (fails e ∷ answers) (suc left) p buf source h =
    elim (Bool-cases (e == eintr)) [
      | inl again ↦
          let (r, eq, s, k) =
            read_loop_ends flags answers (suc left) (interrupted flags (set_errno e p)) buf source
              (ground arith) in
          (r, rw again eq, s, ((λ served z. k.0 served.1 refl), λ given. absurd (given.0)))
      | inr over ↦
          let p' = restore e (give_up_read flags e (set_errno e p)) in
          (
            end_nread p' buf source answers,
            rw over refl,
            nothing_read (suc left) p' buf source answers,
            ((λ served z. absurd (not_interrupted e over served.0)), λ given. absurd (given.0)),
          )
    ]

pub nread_all :
    (flags : ℕ) (answers : List Answer) (count : ℕ) (p : Process) (source : List ℕ)
    → count ≤ progress answers
    → (r : Obtained) × (nread flags answers count p source ≡ some r)
      × (source ≡ r.buf ++ r.source)
      × (length r.buf ≤ count)
      × (r.result ≡ pos (length r.buf))
      × KeepsErrno answers p r
unfolding nread
nread_all flags answers count p source h =
    let (r, e, (got, b, s, l, k), errno) = read_loop_ends flags answers count p [] source h in
    (r, e, s ∙ ap (λ t. t ++ r.source) (sym b), omega (arith, ap length b), k, errno)

-- A result of `nread` on a part of a file.
abbrev pub of_file : List ℕ → Option Obtained → Option Obtained
of_file file none = none
of_file file (some r) = some (record r { source = file })

pread_loop_lem :
    (flags : ℕ) (answers : List Answer) (left offset : ℕ) (p : Process) (buf file : List ℕ)
    → pread_loop flags answers left offset p buf file
      ≡ of_file file (read_loop flags answers left p buf (drop offset file))
unfolding read_loop pread_loop
pread_loop_lem flags answers zero offset p buf file = refl
pread_loop_lem flags [] (suc left) offset p buf file = refl
pread_loop_lem flags (gives n ∷ answers) (suc left) offset p buf file =
    let got = take n (take (suc left) (drop offset file)) in
    elim (Bool-cases (length got == 0)) [
      | inl over ↦ rw over refl
      | inr more ↦ rw more (
          pread_loop_lem flags answers (suc left - length got) (offset + length got) p (buf ++ got)
            file
          ∙ ap
              (λ s. of_file file (read_loop flags answers (suc left - length got) p (buf ++ got) s))
              (sym (drop-drop offset (length got) file)))
    ]
pread_loop_lem flags (fails e ∷ answers) (suc left) offset p buf file =
    elim (Bool-cases (e == eintr)) [
      | inl again ↦ rw again (
          pread_loop_lem flags answers (suc left) offset (interrupted flags (set_errno e p)) buf
            file)
      | inr over ↦ rw over refl
    ]

-- `npread` reads from a place in a file as `nread` does from a stream that begins there: on all
-- answers of the system they agree in result, bytes and `errno`.
pub npread_lem :
    (flags : ℕ) (answers : List Answer) (count offset : ℕ) (p : Process) (file : List ℕ)
    → npread flags answers count offset p file
      ≡ of_file file (nread flags answers count p (drop offset file))
unfolding nread npread
npread_lem flags answers count offset p file = pread_loop_lem flags answers count offset p [] file
