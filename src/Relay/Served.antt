-- ===== src/Relay/Served.antt =====
-- The loop of `cyclic_file_relay` in fdwatch/frelay.c, where the system serves it.
use bsl45_misc_tools.Prelude.{
  ℕ, zero, suc, ◌+◌, ◌*◌, ◌-◌, ◌^◌, ℤ, ◌≤ℤ◌, ◌≤◌, ◌<◌, ◌≡◌, refl, ap, sym, subst, ◌∙◌, List, [],
  ◌∷◌, ◌++◌, true, false, ◌==◌, Option, none, some, pos, Exec, done, length, length-append,
  length-take, take, drop, take-append-drop, arith, All, inl, inr, append-nil, append_assoc,
}
use bsl45_misc_tools.FdIo.{Process, has_flag, fdio_sendfile}
use bsl45_misc_tools.FdIo.Transfer.{Moved, portion, trfbuf_limit}
use bsl45_misc_tools.FdIo.Writes.{progress}
use bsl45_misc_tools.FdIo.Copies.{length_cases}
use bsl45_misc_tools.FdIo.Streams.{Moves, transfer_lem}
use bsl45_misc_tools.Relay.Files.{Relay, Round, failed, path_max}
use bsl45_misc_tools.Relay.Loop.{
  limit_of, beginning, cyclic_file_relay, main, relays, chunk_len, ends, pause, count_sent, rewind,
  after_transfer, round, running, relay,
}
use bsl45_misc_tools.Relay.Rounds.{
  joined, repeated, repeated-suc, IsServedRound, IsRelayed, IsRoomy, count_sent-served, rest_of,
  portions, written, Gains,
}

take-nothing : (n : ℕ) (xs : List ℕ) → 0 < n → take n xs ≡ [] → xs ≡ []
take-nothing n [] h e = refl
take-nothing zero (x ∷ xs) h e = absurd (omega (arith, h))
take-nothing (suc n) (x ∷ xs) h e = cc e

rest_of_some :
    (file left : List ℕ) (k : ℕ)
    → length (take trfbuf_limit left) ≡ suc k
    → rest_of file left ≡ drop trfbuf_limit left
rest_of_some file [] k h = absurd (omega (arith, length-take {A = ℕ} trfbuf_limit [], h))
rest_of_some file (x ∷ xs) k h = refl

-- After `transfer`.
abbrev moved_on : Relay → Moved → Relay
moved_on r m = record r { process = m.process; source = m.source; out = m.out }

rewind-start :
    (printed : ℕ → ℕ) (max_dst_len : ℕ) (a : Round) (r : Relay)
    → a.seek ≡ none
    → rewind printed max_dst_len a (pos zero) r
      ≡ count_sent printed max_dst_len a (pos zero) (record r { source = r.file })
unfolding rewind
rewind-start printed max_dst_len a r h =
    let next = count_sent printed max_dst_len a (pos zero) (record r { source = r.file }) in
    ap (λ o. elim o [ none ↦ next | some e ↦ done (ends e (failed e r)) ]) h

-- The end of the source: it is read from the start again.
rewind-end :
    (printed : ℕ → ℕ) (max_dst_len : ℕ) (a : Round) (r : Relay) (m : Moved)
    → IsRoomy printed max_dst_len
    → IsServedRound a
    → IsRelayed max_dst_len r.file r
    → Moves none trfbuf_limit r.out r.source m
    → take trfbuf_limit r.source ≡ []
    → (r' : Relay) × (rewind printed max_dst_len a (pos zero) (moved_on r m)
        ≡ done (pause a.sleep r'))
      × IsRelayed max_dst_len r.file r'
      × Gains r r'
rewind-end printed max_dst_len a r m roomy s inv (out, source, result, moved, z) nothing =
    let again : Relay = record (moved_on r m) { source = r.file } in
    let none_left : r.source ≡ [] = take-nothing trfbuf_limit r.source (omega arith) nothing in
    let same : m.out ≡ r.out = out ∙ ap (λ l. r.out ++ l) nothing ∙ append-nil r.out in
    let so_far : joined r.moved ++ r.out ≡ repeated inv.times r.file =
      ap (λ l. joined r.moved ++ l) (sym (append-nil r.out))
      ∙ ap (λ l. joined r.moved ++ (r.out ++ l)) (sym none_left)
      ∙ inv.relayed in
    let (r', e, inv', (w, t, q)) =
      count_sent-served printed max_dst_len a again (length r.out) 0 (suc inv.times) roomy s z
        inv.counted (omega (arith, ap (λ l. length l) same)) inv.below (omega arith)
        (ap (λ l. joined r.moved ++ (l ++ r.file)) same
          ∙ sym (append_assoc (joined r.moved) r.out r.file)
          ∙ ap (λ l. l ++ r.file) so_far
          ∙ repeated-suc inv.times r.file)
        inv.sizes in
    (
      r',
      rewind-start printed max_dst_len a (moved_on r m) s.seeks ∙ e,
      inv',
      (
        w
            ∙ ap (λ l. joined r.moved ++ l) same
            ∙ sym (append-nil (written r))
            ∙ ap (λ l. written r ++ l) (sym nothing),
        t ∙ ap (λ l. rest_of r.file l) (sym none_left),
        q,
      ),
    )

-- Some bytes were copied.
rewind-on :
    (printed : ℕ → ℕ) (max_dst_len : ℕ) (a : Round) (r : Relay) (m : Moved) (k : ℕ)
    → IsRoomy printed max_dst_len
    → IsServedRound a
    → IsRelayed max_dst_len r.file r
    → Moves none trfbuf_limit r.out r.source m
    → length (take trfbuf_limit r.source) ≡ suc k
    → (r' : Relay) × (rewind printed max_dst_len a (pos (suc k)) (moved_on r m)
        ≡ done (pause a.sleep r'))
      × IsRelayed max_dst_len r.file r'
      × Gains r r'
unfolding rewind
rewind-on printed max_dst_len a r m k roomy s inv (out, source, result, moved, z) size =
    let got = take trfbuf_limit r.source in
    let (r', e, inv', (w, t, q)) =
      count_sent-served printed max_dst_len a (moved_on r m) (length r.out) (suc k) inv.times roomy
        s z inv.counted (ap (λ l. length l) out ∙ omega (arith, length-append r.out got, size))
        inv.below (omega (arith, size, length-take trfbuf_limit r.source))
        (ap (λ l. joined r.moved ++ (l ++ m.source)) out
          ∙ ap (λ l. joined r.moved ++ ((r.out ++ got) ++ l)) source
          ∙ ap (λ l. joined r.moved ++ l)
              (append_assoc r.out got (drop trfbuf_limit r.source)
                ∙ ap (λ l. r.out ++ l) (take-append-drop trfbuf_limit r.source))
          ∙ inv.relayed)
        inv.sizes in
    (
      r',
      e,
      inv',
      (
        w ∙ ap (λ l. joined r.moved ++ l) out ∙ sym (append_assoc (joined r.moved) r.out got),
        t ∙ source ∙ sym (rest_of_some r.file r.source k size),
        q,
      ),
    )

pub no_sendfile : has_flag 0 fdio_sendfile ≡ false
unfolding has_flag
no_sendfile = refl

pub portion-chunk_len : portion chunk_len ≡ trfbuf_limit
unfolding portion
portion-chunk_len = refl

after_transfer-served :
    (printed : ℕ → ℕ) (max_dst_len : ℕ) (a : Round) (r : Relay) (m : Moved)
    → IsRoomy printed max_dst_len
    → IsServedRound a
    → IsRelayed max_dst_len r.file r
    → Moves none trfbuf_limit r.out r.source m
    → (r' : Relay) × (after_transfer printed max_dst_len a r (some m)
        ≡ done (some (pause a.sleep r')))
      × IsRelayed max_dst_len r.file r'
      × Gains r r'
unfolding after_transfer
after_transfer-served printed max_dst_len a r m roomy s inv moves =
    let (out, source, result, moved, z) = moves in
    let no_error : (m.process.errno == 0) ≡ true = ground arith in
    elim (length_cases (take trfbuf_limit r.source)) [
      | inl nothing ↦
          let (r', e, inv', gain) =
            rewind-end printed max_dst_len a r m roomy s inv moves nothing in
          let turn : rewind printed max_dst_len a m.result (moved_on r m)
              ≡ done (pause a.sleep r') =
            ap (λ k. rewind printed max_dst_len a k (moved_on r m))
              (result ∙ ap (λ l. pos (length l)) nothing)
            ∙ e in
          (r', rw (no_error, turn) refl, inv', gain)
      | inr (k, size) ↦
          let (r', e, inv', gain) = rewind-on printed max_dst_len a r m k roomy s inv moves size in
          let turn : rewind printed max_dst_len a m.result (moved_on r m)
              ≡ done (pause a.sleep r') =
            ap (λ j. rewind printed max_dst_len a j (moved_on r m)) (result ∙ ap pos size) ∙ e in
          (r', rw (no_error, turn) refl, inv', gain)
    ]

limit_of-bounds :
    (argc : ℕ) (delay_ms size : ℤ) (max_dst_len : ℕ)
    → limit_of argc delay_ms size ≡ some max_dst_len
    → size ≤ℤ pos (2 ^ 63 - 1)
    → (0 < max_dst_len) × (max_dst_len + 2 * trfbuf_limit < 2 ^ 64)
unfolding limit_of
limit_of-bounds argc delay_ms size max_dst_len accepted long = ground arith

module _ (sendfile : Option ℕ → ℕ → Process → Exec (Option Moved)) where
  round-Gains :
      (printed : ℕ → ℕ) (max_dst_len : ℕ) (file : List ℕ) (a : Round) (r : Relay)
      → IsRoomy printed max_dst_len
      → IsServedRound a
      → IsRelayed max_dst_len file r
      → (r' : Relay) × (round sendfile printed max_dst_len a r ≡ done (some (pause a.sleep r')))
        × IsRelayed max_dst_len file r'
        × Gains r r'
  unfolding round
  round-Gains printed max_dst_len file a r roomy s inv0 =
      let inv = subst (λ f. IsRelayed max_dst_len f r) (sym inv0.same_file) inv0 in
      let (m, e, moves) =
        transfer_lem sendfile 0 none chunk_len r.process r.out r.source a.reads a.writes no_sendfile
          inv.no_error s.reads_served s.writes_served
          (subst (λ n. n ≤ progress a.reads) (sym portion-chunk_len) s.enough_reads)
          (subst (λ n. n ≤ progress a.writes) (sym portion-chunk_len) s.enough_writes) in
      let moves' = subst (λ n. Moves none n r.out r.source m) portion-chunk_len moves in
      let (r', e', inv', gain) =
        after_transfer-served printed max_dst_len a r m roomy s inv moves' in
      (r', rw (e) e', subst (λ f. IsRelayed max_dst_len f r') inv0.same_file inv', gain)

  pub round-served :
      (printed : ℕ → ℕ) (max_dst_len : ℕ) (file : List ℕ) (a : Round) (r : Relay)
      → IsRoomy printed max_dst_len
      → IsServedRound a
      → IsRelayed max_dst_len file r
      → (r' : Relay) × (round sendfile printed max_dst_len a r ≡ done (some (pause a.sleep r')))
        × IsRelayed max_dst_len file r'
  round-served printed max_dst_len file a r roomy s inv =
      let (r', e, inv', gain) = round-Gains printed max_dst_len file a r roomy s inv in
      (r', e, inv')

  relay-IsRelayed :
      (printed : ℕ → ℕ) (max_dst_len : ℕ) (file : List ℕ) (rounds : List Round) (r : Relay)
      → IsRoomy printed max_dst_len
      → All IsServedRound rounds
      → All (λ a. a.sleep ≡ none) rounds
      → IsRelayed max_dst_len file r
      → (r' : Relay) × (relay sendfile printed max_dst_len rounds r ≡ done (running r'))
        × IsRelayed max_dst_len file r'
        × (written r' ≡ written r ++ portions (length rounds) file r.source)
        × (r'.kept ≡ r.kept)
  unfolding relay pause
  relay-IsRelayed printed max_dst_len file [] r roomy s undisturbed inv =
      (r, refl, inv, sym (append-nil (written r)), refl)
  relay-IsRelayed printed max_dst_len file (a ∷ rounds) r roomy s undisturbed inv =
      let (r1, e, inv1, (w1, t1, q1)) = round-Gains printed max_dst_len file a r roomy s.0 inv in
      let (r', es, inv', w, q) =
        relay-IsRelayed printed max_dst_len file rounds r1 roomy s.1 undisturbed.1 inv1 in
      let next : r1.source ≡ rest_of file r.source =
        t1 ∙ ap (λ f. rest_of f r.source) inv.same_file in
      (
        r',
        rw (e, undisturbed.0) es,
        inv',
        w
            ∙ ap (λ l. l ++ portions (length rounds) file r1.source) w1
            ∙ append_assoc (written r) (take trfbuf_limit r.source)
                (portions (length rounds) file r1.source)
            ∙ ap (λ l. written r ++ (take trfbuf_limit r.source ++ portions (length rounds) file l))
                next,
        q ∙ q1,
      )

  -- With errno 0 at the start, arguments that main takes, the size among them at most 2 ^ 63 - 1,
  -- and names that fit into their buffer, the relay goes on over any number of rounds that the
  -- system serves and whose pauses nothing interrupts. Each round writes the next 10240 bytes of
  -- the source, or what is left of it; a round that finds nothing left writes nothing, and the next
  -- one begins at the start again: so all that was written, to the files that were moved away and
  -- to the last one, is known exactly. With what is left to read it is the source over and over.
  -- Each file that was moved away was at most one portion shorter than the limit, and less than one
  -- portion longer, and none of them still exists; the last one is shorter than the limit.
  pub main-IsRelayed :
      (printed : ℕ → ℕ) (argc : ℕ) (delay_ms size : ℤ) (max_dst_len : ℕ) (rounds : List Round)
      (p : Process) (file : List ℕ)
      → ((c : ℕ) → printed c < path_max)
      → limit_of argc delay_ms size ≡ some max_dst_len
      → size ≤ℤ pos (2 ^ 63 - 1)
      → p.errno ≡ 0
      → All IsServedRound rounds
      → All (λ a. a.sleep ≡ none) rounds
      → (r' : Relay) × (main sendfile printed argc delay_ms size none none rounds p file
          ≡ done (relays (running r')))
        × IsRelayed max_dst_len file r'
        × (written r' ≡ portions (length rounds) file file)
        × (r'.kept ≡ [])
  unfolding main cyclic_file_relay
  main-IsRelayed printed argc delay_ms size max_dst_len rounds p file prints accepted long z s
        undisturbed =
      let (some_room, no_wrap) = limit_of-bounds argc delay_ms size max_dst_len accepted long in
      let roomy : IsRoomy printed max_dst_len = record {
        prints = prints;
        some_room = some_room;
        no_wrap = no_wrap;
      } in
      let begun : IsRelayed max_dst_len file (beginning p file) = record {
        no_error = z;
        same_file = refl;
        counted = refl;
        below = some_room;
        times = 1;
        relayed = sym (append-nil file);
        sizes = tt;
      } in
      let (r', e, inv, w, q) =
        relay-IsRelayed printed max_dst_len file rounds (beginning p file) roomy s undisturbed
          begun in
      (r', rw (main, accepted, cyclic_file_relay, e) refl, inv, w, q)
