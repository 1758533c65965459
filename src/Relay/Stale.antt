-- ===== src/Relay/Stale.antt =====
-- A pause of `cyclic_file_relay` in fdwatch/frelay.c that a signal interrupts.
use bsl45_misc_tools.Prelude.{
  ℕ, ◌≤◌, ◌≡◌, ◌≢◌, refl, ap, sym, subst, List, [], ◌∷◌, false, ◌==◌, Option, none, some, negsuc,
  Exec, done, arith, All,
}
use bsl45_misc_tools.FdIo.{Process}
use bsl45_misc_tools.FdIo.Transfer.{Moved, trfbuf_limit}
use bsl45_misc_tools.FdIo.Writes.{progress}
use bsl45_misc_tools.FdIo.Reads.{IsGiven}
use bsl45_misc_tools.FdIo.Copies.{transfer-stale_errno}
use bsl45_misc_tools.Relay.Files.{Relay, Round, failed}
use bsl45_misc_tools.Relay.Loop.{
  chunk_len, ends, pause, after_transfer, round, running, returned, relay,
}
use bsl45_misc_tools.Relay.Rounds.{IsServedRound, IsRelayed, IsRoomy}
use bsl45_misc_tools.Relay.Served.{no_sendfile, portion-chunk_len, round-served}

module _ (sendfile : Option ℕ → ℕ → Process → Exec (Option Moved)) where
  -- A round that begins with an error, left by something else.
  round-stale :
      (printed : ℕ → ℕ) (max_dst_len : ℕ) (b : Round) (r : Relay)
      → r.process.errno ≢ 0
      → All IsGiven b.reads
      → trfbuf_limit ≤ progress b.reads
      → (r' : Relay) × (round sendfile printed max_dst_len b r
          ≡ done (some (ends r.process.errno r')))
        × (r'.out ≡ r.out)
        × (r'.moved ≡ r.moved)
        × (r'.kept ≡ r.kept)
  unfolding round after_transfer
  round-stale printed max_dst_len b r stale given enough =
      let (m, e, out, result, same) =
        transfer-stale_errno sendfile 0 none chunk_len r.process r.out r.source b.reads b.writes
          no_sendfile stale given
          (subst (λ n. n ≤ progress b.reads) (sym portion-chunk_len) enough) in
      let an_error : (m.process.errno == 0) ≡ false = ground arith in
      let r' : Relay = record r { process = m.process; source = m.source; out = m.out } in
      (
        failed m.process.errno r',
        rw (e, an_error) (ap (λ k. done (some (ends k (failed m.process.errno r')))) same),
        out,
        refl,
        refl,
      )

  -- Where a round is served, and a signal interrupts its pause, the relay ends with -1 in the next round,
  -- though the system hands bytes over there: they are not written, and the files stay as they are.
  pub relay-interrupted :
      (printed : ℕ → ℕ) (max_dst_len e : ℕ) (file : List ℕ) (a b : Round) (rounds : List Round)
      (r : Relay)
      → IsRoomy printed max_dst_len
      → IsServedRound a
      → a.sleep ≡ some e
      → e ≢ 0
      → All IsGiven b.reads
      → trfbuf_limit ≤ progress b.reads
      → IsRelayed max_dst_len file r
      → (r1 : Relay) × (r2 : Relay) × IsRelayed max_dst_len file r1
        × (relay sendfile printed max_dst_len (a ∷ []) r ≡ done (running (failed e r1)))
        × (relay sendfile printed max_dst_len (a ∷ b ∷ rounds) r ≡ done (returned (negsuc 0) r2))
        × (r2.out ≡ r1.out)
        × (r2.moved ≡ r1.moved)
        × (r2.kept ≡ r1.kept)
  unfolding relay pause
  relay-interrupted printed max_dst_len e file a b rounds r roomy s slept some_error given enough
        inv =
      let (r1, one, inv1) = round-served sendfile printed max_dst_len file a r roomy s inv in
      let (r2, two, out, moved, kept) =
        round-stale printed max_dst_len b (failed e r1) some_error given enough in
      let an_error : (e == 0) ≡ false = ground arith in
      (r1, r2, inv1, rw (one, slept) refl, rw (one, slept, two, an_error) refl, out, moved, kept)
