-- ===== src/FdIo/Sending.antt =====
-- What `bsd_nsendfile` of fdwatch/fdio.c sends.
use bsl45_misc_tools.Prelude.{
  ℕ, zero, suc, ◌+◌, ◌-◌, ◌≤◌, ◌<◌, ◌≡◌, ◌⊎◌, inl, inr, refl, ap, sym, subst, ◌∙◌, if◌then◌else◌,
  List, [], ◌∷◌, ◌++◌, true, false, Option, none, some, leb, pos, length, length-drop, drop-drop,
  length-take, take, drop, arith, All, Bool-cases, append-nil, append_assoc,
}
use bsl45_misc_tools.FdIo.{Process, set_errno, interrupted, restore, eintr}
use bsl45_misc_tools.FdIo.Reads.{handed_over}
use bsl45_misc_tools.FdIo.Streams.{take-append_short}
use bsl45_misc_tools.FdIo.Sendfile.{
  SendAnswer, Looped, send_loop, Sent, end_position, end_offset, Told, stands, map_end,
  bsd_nsendfile,
}

-- The call succeeds or is interrupted.
abbrev pub IsPassed : SendAnswer → Type 0
IsPassed a = (a.error ≡ none) ⊎ (a.error ≡ some eintr)

nothing_taken : (n m : ℕ) → take {A = ℕ} n (take m []) ≡ []
nothing_taken zero m = refl
nothing_taken (suc n) zero = refl
nothing_taken (suc n) (suc m) = refl

send_loop-end :
    (flags : ℕ) (answers : List SendAnswer) (count : ℕ) (file : List ℕ) (total at last : ℕ)
    (p : Process) (out : List ℕ)
    → total < count
    → drop at file ≡ []
    → All IsPassed answers
    → send_loop flags answers count file total at last p out ≡ none
unfolding send_loop
send_loop-end flags [] count file total at last p out h e s =
    let more : leb count total ≡ false = ground arith in rw (more) refl
send_loop-end flags (a ∷ answers) count file total at last p out h e s =
    let more : leb count total ≡ false = ground arith in
    let got = take a.sbytes (take (count - total) (drop at file)) in
    let nothing : got ≡ [] =
      ap (λ l. take a.sbytes (take (count - total) l)) e ∙ nothing_taken a.sbytes (count - total) in
    let same : length got ≡ 0 = ap (λ l. length l) nothing in
    let still : drop (at + length got) file ≡ [] =
      ap (λ k. drop k file) (subst (λ k. at + k ≡ at) (sym same) (omega arith)) ∙ e in
    elim s.0 [
      | inl ok ↦
          let rest =
            send_loop-end flags answers count file (total + length got) (at + length got)
              (length got) p (out ++ got) (omega (arith, same)) still s.1 in
          rw (more, ok, rest) refl
      | inr busy ↦
          let rest =
            send_loop-end flags answers count file (total + length got) (at + length got)
              (length got) (interrupted flags (set_errno eintr p)) (out ++ got)
              (omega (arith, same)) still s.1 in
          rw (more, busy, rest) refl
    ]

-- At the end of the file, with a count that is not 0, `bsd_nsendfile` calls `sendfile` over and over, as
-- long as that succeeds or is interrupted: it does not return, at a given offset or at the position.
pub bsd_nsendfile-end :
    (flags at : ℕ) (tell : Told) (seek : Option ℕ) (answers : List SendAnswer) (count : ℕ)
    (p : Process) (file out : List ℕ)
    → 0 < count
    → drop at file ≡ []
    → All IsPassed answers
    → (bsd_nsendfile flags tell seek answers (some (pos at)) count p file out ≡ none)
      × (bsd_nsendfile flags (stands at) seek answers none count p file out ≡ none)
unfolding bsd_nsendfile
bsd_nsendfile-end flags at tell seek answers count p file out h e s =
    let looping = send_loop-end flags answers count file 0 at 0 p out h e s in
    (ap (λ o. map_end end_offset o) looping, ap (λ o. map_end (end_position seek) o) looping)

-- The call sends something.
abbrev pub IsSending : SendAnswer → Type 0
IsSending a = (a.error ≡ none) × (0 < a.sbytes)

-- What the last call sends, where calls send until `m` bytes are sent: what is left of them then.
abbrev pub last_sent : List SendAnswer → ℕ → ℕ
last_sent [] m = 0
last_sent (a ∷ answers) m =
    let rest = last_sent answers (m - a.sbytes) in if leb m a.sbytes then m else rest

length-taken :
    (n m : ℕ) (xs : List ℕ)
    → 0 < n
    → 0 < m
    → m ≤ length xs
    → (0 < length (take n (take m xs))) × (length (take n (take m xs)) ≤ m)
length-taken n m xs hn hm h = omega (arith, length-take n (take m xs), length-take m xs)

send_loop_served :
    (flags : ℕ) (answers : List SendAnswer) (count : ℕ) (file : List ℕ) (total at last : ℕ)
    (p : Process) (out : List ℕ)
    → All IsSending answers
    → count ≤ total + length answers
    → total ≤ count
    → count - total ≤ length (drop at file)
    → last ≤ total
    → (l : Looped) × (send_loop flags answers count file total at last p out ≡ some l)
      × (l.out ≡ out ++ take (count - total) (drop at file))
      × (l.at ≡ at + (count - total))
      × (l.err ≡ 0)
      × (l.process ≡ p)
      × (l.last ≡ (if leb count total then last else last_sent answers (count - total)))
unfolding send_loop
send_loop_served flags [] count file total at last p out s h low rest small =
    let full : leb count total ≡ true = ground arith in
    let whole : count - total ≡ 0 = omega arith in
    (
      record { total = total; at = at; last = last; err = 0; process = p; out = out },
      rw (full) refl,
      sym (append-nil out) ∙ ap (λ k. out ++ take k (drop at file)) (sym whole),
      omega arith,
      refl,
      refl,
      rw (full) refl,
    )
send_loop_served flags (a ∷ answers) count file total at last p out s h low rest small =
    elim (Bool-cases (leb count total)) [
      | inl full ↦
          let whole : count - total ≡ 0 = ground (arith, full) in
          (
            record { total = total; at = at; last = last; err = 0; process = p; out = out },
            rw (full) refl,
            sym (append-nil out) ∙ ap (λ k. out ++ take k (drop at file)) (sym whole),
            omega arith,
            refl,
            refl,
            rw (full) refl,
          )
      | inr more ↦
          let m = count - total in
          let left = drop at file in
          let got = take a.sbytes (take m left) in
          let n = length got in
          let some_left : 0 < m = ground (arith, more) in
          let (some_sent, fits) = length-taken a.sbytes m left s.0.1 some_left rest in
          let (l, e, o, t, z, q, k) =
            send_loop_served flags answers count file (total + n) (at + n) n p (out ++ got) s.1
              (omega (arith, some_sent, h)) (omega (arith, fits))
              (omega (arith, fits, rest, length-drop at file, length-drop (at + n) file))
              (omega arith) in
          let one_less : count - (total + n) ≡ m - n = omega arith in
          (
            l,
            rw (more, s.0.0) e,
            o
                ∙ append_assoc out got (take (count - (total + n)) (drop (at + n) file))
                ∙ ap (λ j. out ++ (got ++ take j (drop (at + n) file))) one_less
                ∙ ap (λ r. out ++ (got ++ take (m - n) r)) (sym (drop-drop at n file))
                ∙ ap (λ r. out ++ r)
                    (sym (take-append_short m got (drop n left) fits)
                      ∙ ap (λ r. take m r) (sym (handed_over a.sbytes m left))),
            omega (arith, t, fits),
            z,
            q,
            elim (Bool-cases (leb m a.sbytes)) [
              | inl last_call ↦
                  let sent : n ≡ m = ground (
                    arith,
                    last_call,
                    rest,
                    length-take a.sbytes (take m left),
                    length-take m left,
                  ) in
                  let all_sent : leb count (total + n) ≡ true = ground (arith, sent) in
                  rw (more, last_call)
                    (k
                      ∙ ap (λ c. if c then n else last_sent answers (count - (total + n))) all_sent
                      ∙ sent)
              | inr some_call ↦
                  let sent : n ≡ a.sbytes = ground (
                    arith,
                    some_call,
                    rest,
                    length-take a.sbytes (take m left),
                    length-take m left,
                  ) in
                  let less_sent : leb count (total + n) ≡ false =
                    ground (arith, sent, some_call, some_left) in
                  let fewer : count - (total + n) ≡ m - a.sbytes = omega (arith, sent) in
                  rw (more, some_call)
                    (k
                      ∙ ap (λ c. if c then n else last_sent answers (count - (total + n))) less_sent
                      ∙ ap (λ c. last_sent answers c) fewer)
            ],
          )
    ]

-- Where the file has as many bytes from the offset on as asked for, and there are as many calls of
-- `sendfile` as bytes at least, each of which sends some of them, `bsd_nsendfile` sends them all,
-- in order. It returns the number of bytes that the last call has sent, those which the calls
-- before it have left, and moves the offset by that number more than the bytes sent; `errno` is as
-- it was.
pub bsd_nsendfile_lem :
    (flags at : ℕ) (tell : Told) (seek : Option ℕ) (answers : List SendAnswer) (count : ℕ)
    (p : Process) (file out : List ℕ)
    → All IsSending answers
    → count ≤ length answers
    → count ≤ length (drop at file)
    → (w : Sent) × (bsd_nsendfile flags tell seek answers (some (pos at)) count p file out ≡ some w)
      × (w.out ≡ out ++ take count (drop at file))
      × (w.result ≡ pos (last_sent answers count))
      × (w.offset ≡ some (pos (at + count + last_sent answers count)))
      × (w.process ≡ p)
unfolding bsd_nsendfile end_offset restore
bsd_nsendfile_lem flags at tell seek answers count p file out s h rest =
    let (l, e, o, t, z, q, k) =
      send_loop_served flags answers count file 0 at 0 p out s (omega arith) (omega arith)
        (omega (arith, rest)) (omega arith) in
    let whole : count - 0 ≡ count = omega arith in
    let last : l.last ≡ last_sent answers count = k ∙ last_of_all answers count in
    (
      end_offset l,
      ap (λ m. map_end end_offset m) e,
      o ∙ ap (λ c. out ++ take c (drop at file)) whole,
      ap (λ c. pos c) last,
      ap (λ c. some (pos (c + l.last))) (t ∙ ap (λ c. at + c) whole)
          ∙ ap (λ c. some (pos (at + count + c))) last,
      ap (λ err. restore err l.process) z ∙ q,
    )
  where
    last_of_all :
        (answers : List SendAnswer) (count : ℕ)
        → (if leb count 0 then 0 else last_sent answers (count - 0)) ≡ last_sent answers count
    last_of_all [] zero = refl
    last_of_all (a ∷ answers) zero =
        let none_left : leb 0 a.sbytes ≡ true = ground arith in rw (none_left) refl
    last_of_all answers (suc count) =
        let some_left : leb (suc count) 0 ≡ false = ground arith in
        let same : suc count - 0 ≡ suc count = omega arith in
        rw (some_left) (ap (λ c. last_sent answers c) same)
