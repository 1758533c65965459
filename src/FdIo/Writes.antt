-- ===== src/FdIo/Writes.antt =====
-- What `nwrite` of fdwatch/fdio.c writes, on every sequence of answers of the system.
use bsl45_misc_tools.Prelude.{
  ℕ, zero, suc, ◌+◌, ◌≤◌, ◌≡◌, ◌⊎◌, inl, inr, refl, ap, sym, subst, ◌∙◌, List, [], ◌∷◌, ◌++◌, true,
  some, ◌==◌, if◌then◌else◌, pos, length, take, drop, arith, All, Bool-cases, append-nil,
  append_assoc, length-drop, take-append-drop, length-append,
}
use bsl45_misc_tools.FdIo.{
  Process, Answer, gives, fails, set_errno, interrupted, give_up_write, restore, eintr,
}
use bsl45_misc_tools.FdIo.Output.{Written, end_nwrite, write_loop, nwrite, minus_one}

-- The answers that end a loop or bring it on by a byte at least. An interruption does neither.
unfoldable pub progress : List Answer → ℕ
progress [] = 0
progress (gives zero ∷ answers) = progress answers
progress (gives (suc n) ∷ answers) = suc (progress answers)
progress (fails e ∷ answers) = if e == eintr then progress answers else suc (progress answers)

-- The call has written a prefix of the buffer, and returns its length, or -1.
abbrev pub WritesPrefix : List ℕ → ℕ → List ℕ → Written → Type 0
WritesPrefix left total out w =
    (sent : List ℕ) × (unsent : List ℕ) × (left ≡ sent ++ unsent)
    × (w.out ≡ out ++ sent)
    × ((w.result ≡ pos (total + length sent)) ⊎ (w.result ≡ minus_one))

-- A round that has sent some bytes goes before the rest.
pub WritesPrefix-append :
    (first left out : List ℕ) (total : ℕ) (w : Written)
    → WritesPrefix left (total + length first) (out ++ first) w
    → WritesPrefix (first ++ left) total out w
WritesPrefix-append first left out total w (sent, unsent, e, o, r) = (
  first ++ sent,
  unsent,
  ap (λ l. first ++ l) e ∙ sym (append_assoc first sent unsent),
  o ∙ append_assoc out first sent,
  moved r,
)
  where
    moved :
        (w.result ≡ pos (total + length first + length sent)) ⊎ (w.result ≡ minus_one)
        → (w.result ≡ pos (total + length (first ++ sent))) ⊎ (w.result ≡ minus_one)
    moved (inl k) = inl (k ∙ ap pos (omega (arith, length-append first sent)))
    moved (inr k) = inr k

pub nothing_sent :
    (left out : List ℕ) (total : ℕ) (w : Written)
    → w.out ≡ out
    → (w.result ≡ pos total) ⊎ (w.result ≡ minus_one)
    → WritesPrefix left total out w
nothing_sent left out total w o (inl r) =
    ([], left, refl, o ∙ sym (append-nil out), inl (r ∙ ap pos (omega arith)))
nothing_sent left out total w o (inr r) = ([], left, refl, o ∙ sym (append-nil out), inr r)

write_loop_ends :
    (flags : ℕ) (answers : List Answer) (left : List ℕ) (total : ℕ) (p : Process) (out : List ℕ)
    → length left ≤ progress answers
    → (w : Written) × (write_loop flags answers left total p out ≡ some w)
      × WritesPrefix left total out w
unfolding write_loop progress end_nwrite
write_loop_ends flags answers [] total p out h =
    let w = end_nwrite (pos total) 0 total p out answers in
    (w, refl, nothing_sent [] out total w refl (inl refl))
write_loop_ends flags [] (b ∷ left) total p out h = absurd (omega arith)
write_loop_ends flags (gives zero ∷ answers) (b ∷ left) total p out h =
    elim (Bool-cases (p.errno == eintr)) [
      | inl again ↦
          rw again (write_loop_ends flags answers (b ∷ left) total (interrupted flags p) out h)
      | inr over ↦
          let w = end_nwrite (pos 0) p.errno total (give_up_write flags p.errno p) out answers in
          (w, rw over refl, nothing_sent (b ∷ left) out total w refl (inl refl))
    ]
write_loop_ends flags (gives (suc n) ∷ answers) (b ∷ left) total p out h =
    let first = b ∷ take n left in
    let (w, e, s) =
      write_loop_ends flags answers (drop n left) (total + length first) p (out ++ first)
        (omega (arith, length-drop n left)) in
    (
      w,
      e,
      subst (λ l. WritesPrefix l total out w) (ap (λ l. b ∷ l) (take-append-drop n left))
          (WritesPrefix-append first (drop n left) out total w s),
    )
write_loop_ends flags (fails e ∷ answers) (b ∷ left) total p out h =
    elim (Bool-cases (e == eintr)) [
      | inl again ↦ rw again (
          write_loop_ends flags answers (b ∷ left) total (interrupted flags (set_errno e p)) out
            (ground arith))
      | inr over ↦
          let w =
            end_nwrite minus_one e total (give_up_write flags e (set_errno e p)) out answers in
          (w, rw over refl, nothing_sent (b ∷ left) out total w refl (inr refl))
    ]

-- Given an answer for each byte that ends the loop or moves a byte at least, `nwrite` returns, whatever
-- the other answers are: it has written a prefix of the buffer, and returns its length or -1.
pub nwrite_ends :
    (flags : ℕ) (answers : List Answer) (buf : List ℕ) (p : Process) (out : List ℕ)
    → length buf ≤ progress answers
    → (w : Written) × (nwrite flags answers buf p out ≡ some w) × WritesPrefix buf 0 out w
unfolding nwrite
nwrite_ends flags answers buf p out h = write_loop_ends flags answers buf 0 p out h

-- An answer that moves something, or an interruption.
abbrev pub IsServed : Answer → Type 0
IsServed (gives zero) = ⊥
IsServed (gives (suc n)) = Unit {0}
IsServed (fails e) = e ≡ eintr

write_loop_served :
    (flags : ℕ) (answers : List Answer) (left : List ℕ) (total : ℕ) (p : Process) (out : List ℕ)
    → All IsServed answers
    → length left ≤ progress answers
    → (w : Written) × (write_loop flags answers left total p out ≡ some w)
      × (w.out ≡ out ++ left)
      × (w.result ≡ pos (total + length left))
      × (p.errno ≡ 0 → w.process.errno ≡ 0)
unfolding write_loop progress end_nwrite interrupted restore
write_loop_served flags answers [] total p out s h = (
  end_nwrite (pos total) 0 total p out answers,
  refl,
  sym (append-nil out),
  ap pos (omega arith),
  λ z. z,
)
write_loop_served flags [] (b ∷ left) total p out s h = absurd (omega arith)
write_loop_served flags (gives zero ∷ answers) (b ∷ left) total p out s h = absurd (s.0)
write_loop_served flags (gives (suc n) ∷ answers) (b ∷ left) total p out s h =
    let first = b ∷ take n left in
    let whole = take-append-drop n left in
    let (w, e, o, r, z) =
      write_loop_served flags answers (drop n left) (total + length first) p (out ++ first) s.1
        (omega (arith, length-drop n left)) in
    (
      w,
      e,
      o ∙ append_assoc out first (drop n left) ∙ ap (λ l. out ++ (b ∷ l)) whole,
      r ∙ ap pos (omega (arith, ap length whole, length-append (take n left) (drop n left))),
      z,
    )
write_loop_served flags (fails e ∷ answers) (b ∷ left) total p out s h =
    let again : (e == eintr) ≡ true = ground (arith, s.0) in
    let (w, eq, o, r, z) =
      write_loop_served flags answers (b ∷ left) total (interrupted flags (set_errno e p)) out s.1
        (ground arith) in
    (w, rw again eq, o, r, λ zero_before. z refl)

-- A whole write, which leaves no error.
pub nwrite-whole :
    (flags : ℕ) (answers : List Answer) (buf : List ℕ) (p : Process) (out : List ℕ)
    → All IsServed answers
    → length buf ≤ progress answers
    → (w : Written) × (nwrite flags answers buf p out ≡ some w)
      × (w.out ≡ out ++ buf)
      × (w.result ≡ pos (length buf))
      × (p.errno ≡ 0 → w.process.errno ≡ 0)
unfolding nwrite
nwrite-whole flags answers buf p out s h =
    let (w, e, o, r, z) = write_loop_served flags answers buf 0 p out s h in
    (w, e, o, r ∙ ap pos (omega arith), z)
