-- ===== src/FdIo/Copies.antt =====
-- What `transfer` of fdwatch/fdio.c moves from one descriptor to the other.
use bsl45_misc_tools.Prelude.{
  ℕ, zero, suc, ◌≤◌, ◌≡◌, ◌≢◌, refl, ap, ◌∙◌, List, [], ◌∷◌, ◌++◌, Bool, true, false, Option, none,
  some, ◌==◌, if◌then◌else◌, pos, length, drop, arith, All, Exec, done, inl, inr, leb_ℤ, ltb_ℤ, not,
  ◌||◌, ap₂, ◌⊎◌,
}
use bsl45_misc_tools.FdIo.{Process, Answer, restore, has_flag, fdio_sendfile}
use bsl45_misc_tools.FdIo.Output.{Written, nwrite}
use bsl45_misc_tools.FdIo.Input.{Obtained}
use bsl45_misc_tools.FdIo.Transfer.{
  Moved, portion, end_transfer, after_write, after_read, read_portion, transfer,
}
use bsl45_misc_tools.FdIo.Writes.{progress, IsServed}
use bsl45_misc_tools.FdIo.Reads.{nread_all, npread_lem, of_file, IsGiven}

-- What `transfer` reads from, and what is left of it: a stream is used up, a file is not.
abbrev pub source_at : Option ℕ → List ℕ → List ℕ
source_at none source = source
source_at (some offset) file = drop offset file

-- A portion is read from where the source stands.
read_portion-ends :
    (flags : ℕ) (offset : Option ℕ) (n : ℕ) (p : Process) (source : List ℕ) (reads : List Answer)
    → n ≤ progress reads
    → (r : Obtained) × (later : List ℕ) × (read_portion flags offset n p source reads ≡ some r)
      × (source_at offset source ≡ r.buf ++ later)
      × (length r.buf ≤ n)
      × (r.result ≡ pos (length r.buf))
      × (All IsServed reads → p.errno ≡ 0 → r.process.errno ≡ 0)
      × (All IsGiven reads → r.process.errno ≡ p.errno)
read_portion-ends flags none n p source reads h =
    let (r, e, s, l, k, keeps) = nread_all flags reads n p source h in
    (r, r.source, e, s, l, k, keeps.0, keeps.1)
read_portion-ends flags (some offset) n p file reads h =
    let (r, e, s, l, k, keeps) = nread_all flags reads n p (drop offset file) h in
    (
      record r { source = file },
      r.source,
      npread_lem flags reads n offset p file ∙ ap (of_file file) e,
      s,
      l,
      k,
      keeps.0,
      keeps.1,
    )

pub length_cases : (xs : List ℕ) → (xs ≡ []) ⊎ ((n : ℕ) × (length xs ≡ suc n))
length_cases [] = inl refl
length_cases (x ∷ xs) = inr (length xs, refl)

-- Nothing was read: the end of the source.
pub after_read-nothing :
    (flags : ℕ) (offset : Option ℕ) (out : List ℕ) (writes : List Answer) (r : Obtained)
    → r.result ≡ pos 0
    → after_read flags offset out writes (some r)
      ≡ done (some (end_transfer offset (pos 0) r.process.errno r.process out r.source))
unfolding after_read
after_read-nothing flags offset out writes r e =
    let none_read : leb_ℤ r.result (pos 0) ≡ true = ap (λ k. leb_ℤ k (pos 0)) e in
    ap
      (λ b.
        if b || not (r.process.errno == 0)
        then done (some (end_transfer offset (pos 0) r.process.errno r.process out r.source))
        else after_write offset r (nwrite flags writes r.buf r.process out))
      none_read

-- Something was read, with no error: all that `nwrite` has written counts.
pub after_read-some :
    (flags : ℕ) (offset : Option ℕ) (out : List ℕ) (writes : List Answer) (r : Obtained) (n : ℕ)
    (w : Written)
    → r.result ≡ pos (suc n)
    → r.process.errno ≡ 0
    → nwrite flags writes r.buf r.process out ≡ some w
    → w.result ≡ pos (suc n)
    → after_read flags offset out writes (some r)
      ≡ done (some (end_transfer offset (pos (suc n)) 0 w.process w.out r.source))
unfolding after_read after_write
after_read-some flags offset out writes r n w e z ew rw' =
    let some_read : leb_ℤ r.result (pos 0) ≡ false = ap (λ k. leb_ℤ k (pos 0)) e ∙ ground arith in
    let no_error : (r.process.errno == 0) ≡ true = ground arith in
    let no_more : ltb_ℤ r.result w.result ≡ false = ap₂ ltb_ℤ e rw' ∙ ground arith in
    rw (some_read, no_error, ew, no_more)
      (ap (λ k. done (some (end_transfer offset k 0 w.process w.out r.source))) rw')

restore_errno : (err : ℕ) (p : Process) → p.errno ≡ err → (restore err p).errno ≡ err
unfolding restore
restore_errno zero p e = e
restore_errno (suc err) p e = refl

-- A transfer with an old error.
pub transfer-stale_errno :
    (sendfile : Option ℕ → ℕ → Process → Exec (Option Moved)) (flags : ℕ) (offset : Option ℕ)
    (count : ℕ) (p : Process) (out source : List ℕ) (reads writes : List Answer)
    → has_flag flags fdio_sendfile ≡ false
    → p.errno ≢ 0
    → All IsGiven reads
    → portion count ≤ progress reads
    → (m : Moved) × (transfer sendfile flags offset count p out source reads writes ≡ done (some m))
      × (m.out ≡ out)
      × (m.result ≡ pos 0)
      × (m.process.errno ≡ p.errno)
unfolding transfer after_read end_transfer
transfer-stale_errno sendfile flags offset count p out source reads writes hf hz hr nr =
    let (r, later, e, s, l, k, zero_stays, same) =
      read_portion-ends flags offset (portion count) p source reads nr in
    let kept : (r.process.errno == 0) ≡ false = ground (arith, same hr) in
    (
      end_transfer offset (pos 0) r.process.errno r.process out r.source,
      rw (hf, e, kept) (stops (leb_ℤ r.result (pos 0)) _ _),
      refl,
      refl,
      restore_errno r.process.errno r.process refl ∙ same hr,
    )
  where
    stops : (b : Bool) (x y : Exec (Option Moved)) → (if b || true then x else y) ≡ x
    stops true x y = refl
    stops false x y = refl

-- Where `errno` is set before, from an earlier failure, and each call of the system hands bytes over,
-- `transfer` without `sendfile` writes nothing
-- and returns 0, whatever bytes it has read.
pub transfer-stale :
    (sendfile : Option ℕ → ℕ → Process → Exec (Option Moved)) (flags : ℕ) (offset : Option ℕ)
    (count : ℕ) (p : Process) (out source : List ℕ) (reads writes : List Answer)
    → has_flag flags fdio_sendfile ≡ false
    → p.errno ≢ 0
    → All IsGiven reads
    → portion count ≤ progress reads
    → (m : Moved) × (transfer sendfile flags offset count p out source reads writes ≡ done (some m))
      × (m.out ≡ out)
      × (m.result ≡ pos 0)
transfer-stale sendfile flags offset count p out source reads writes hf hz hr nr =
    let (m, e, o, r, same) =
      transfer-stale_errno sendfile flags offset count p out source reads writes hf hz hr nr in
    (m, e, o, r)
