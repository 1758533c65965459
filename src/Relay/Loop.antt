-- ===== src/Relay/Loop.antt =====
-- `cyclic_file_relay` and `main` of fdwatch/frelay.c. Nothing sets `g_quit`, so the loop ends on an
-- error only. What is printed, other than errors, is left out.
use bsl45_misc_tools.Prelude.{
  ℕ, zero, suc, ◌+◌, ◌-◌, ◌*◌, ◌^◌, ◌%◌, List, [], ◌∷◌, Bool, ◌||◌, ◌==◌, ltb, leb, if◌then◌else◌,
  Option, none, some, ℤ, pos, negsuc, ◌+ℤ◌, leb_ℤ, ltb_ℤ, Exec, done, ◌>>=◌,
}
use bsl45_misc_tools.FdIo.{Process}
use bsl45_misc_tools.FdIo.Transfer.{Moved, transfer}
use bsl45_misc_tools.Relay.Files.{Relay, Round, failed, Rolled, rolled, not_rolled, rollover}

abbrev pub mtu_default : ℕ
mtu_default = 1500

abbrev pub chunk_len : ℕ
chunk_len = mtu_default * 10

-- `(size_t)`
abbrev pub to_size : ℤ → ℕ
to_size (pos n) = n % 2 ^ 64
to_size (negsuc n) = 2 ^ 64 - 1 - n % 2 ^ 64

-- How a round ends: it is followed by another one, or it breaks from the loop with `err`.
pub data Turn : Type 0 where
  goes : Relay → Turn
  ends : ℕ → Relay → Turn

-- A pause that fails is reported.
unfoldable pub pause : Option ℕ → Relay → Turn
pause none r = goes r
pause (some e) r = goes (failed e r)

unfoldable pub after_rollover : Option ℕ → Rolled → Turn
after_rollover sleep (not_rolled r) = ends 0 r
after_rollover sleep (rolled r) = pause sleep (record r { ntotal = pos 0 })

unfoldable pub is_full : ℕ → ℤ → ℤ → Bool
is_full max_dst_len ntotal nsent = leb max_dst_len ((to_size ntotal + to_size nsent) % 2 ^ 64)

-- From `ntotal += nsent` on.
unfoldable pub count_sent : (ℕ → ℕ) → ℕ → Round → ℤ → Relay → Exec Turn
count_sent printed max_dst_len a nsent r =
    let ntotal = r.ntotal +ℤ nsent in
    let counter = suc r.nrolls in
    if is_full max_dst_len ntotal nsent
    then (do
      ended ← rollover printed counter a (record r { ntotal = ntotal; nrolls = counter })
      done (after_rollover a.sleep ended))
    else done (pause a.sleep (record r { ntotal = ntotal }))

-- At the end of the source it is read from the start again.
unfoldable pub rewind : (ℕ → ℕ) → ℕ → Round → ℤ → Relay → Exec Turn
rewind printed max_dst_len a (pos zero) r = elim a.seek [
  | none ↦ count_sent printed max_dst_len a (pos 0) (record r { source = r.file })
  | some e ↦ done (ends e (failed e r))
]
rewind printed max_dst_len a (pos (suc n)) r = count_sent printed max_dst_len a (pos (suc n)) r
rewind printed max_dst_len a (negsuc n) r = count_sent printed max_dst_len a (negsuc n) r

-- `none` means that the last call in `transfer` has got no answer yet.
unfoldable pub after_transfer : (ℕ → ℕ) → ℕ → Round → Relay → Option Moved → Exec (Option Turn)
after_transfer printed max_dst_len a r none = done none
after_transfer printed max_dst_len a r (some m) =
    let r' : Relay = record r { process = m.process; source = m.source; out = m.out } in
    if m.process.errno == 0
    then (do turn ← rewind printed max_dst_len a m.result r'; done (some turn))
    else done (some (ends m.process.errno (failed m.process.errno r')))

-- The loop after some rounds: it is at its head, it waits for an answer in one of them, or the function
-- has returned.
pub data Relaying : Type 0 where
  running : Relay → Relaying
  awaiting : Relaying
  returned : ℤ → Relay → Relaying

abbrev pub rc_of : ℕ → ℤ
rc_of err = if err == 0 then pos 0 else negsuc 0

module _ (sendfile : Option ℕ → ℕ → Process → Exec (Option Moved)) where
  unfoldable pub round : (ℕ → ℕ) → ℕ → Round → Relay → Exec (Option Turn)
  round printed max_dst_len a r = do
    m ← transfer sendfile 0 none chunk_len r.process r.out r.source a.reads a.writes
    after_transfer printed max_dst_len a r m

  unfoldable pub relay : (ℕ → ℕ) → ℕ → List Round → Relay → Exec Relaying
  relay printed max_dst_len [] r = done (running r)
  relay printed max_dst_len (a ∷ rounds) r = do
    turn ← round printed max_dst_len a r
    elim turn [
      | none ↦ done awaiting
      | some t ↦ elim t [
        | goes r' ↦ relay printed max_dst_len rounds r'
        | ends err r' ↦ done (returned (rc_of err) r')
      ]
    ]

-- The state before the loop: the destination is created, or cut to no bytes.
abbrev pub beginning : Process → List ℕ → Relay
beginning p file = record {
  process = p;
  file = file;
  source = file;
  out = [];
  kept = [];
  moved = [];
  ntotal = pos 0;
  nrolls = 0;
}

-- What main comes to: it returns with a value of its own, or the relay has got so far.
pub data Ran : Type 0 where
  exits : ℤ → Ran
  relays : Relaying → Ran

abbrev pub min_dst_sz : ℕ
min_dst_sz = 1024 * 10

-- The limit for a copy, unless main rejects its arguments. `delay_ms` and `size` are what `atol` makes of
-- the third and the fourth argument.
unfoldable pub limit_of : ℕ → ℤ → ℤ → Option ℕ
limit_of argc delay_ms size =
    if ltb argc 4
    then none
    else if leb_ℤ delay_ms (pos 0) || ltb_ℤ (pos 3000) delay_ms
    then none
    else if ltb 4 argc
    then (if leb_ℤ size (pos min_dst_sz) then none else some (to_size size))
    else some (1024 * 1024 * 10)

module _ (sendfile : Option ℕ → ℕ → Process → Exec (Option Moved)) where
  -- `open_src` and `open_dst` are the errors of the two calls of `open`.
  unfoldable pub cyclic_file_relay :
      (ℕ → ℕ) → ℕ → Option ℕ → Option ℕ → List Round → Process → List ℕ → Exec Relaying
  cyclic_file_relay printed max_dst_len (some e) open_dst rounds p file =
      done (returned (rc_of e) (failed e (beginning p file)))
  cyclic_file_relay printed max_dst_len none (some e) rounds p file =
      done (returned (rc_of e) (failed e (beginning p file)))
  cyclic_file_relay printed max_dst_len none none rounds p file =
      relay sendfile printed max_dst_len rounds (beginning p file)

  unfoldable pub main :
      (ℕ → ℕ) → ℕ → ℤ → ℤ → Option ℕ → Option ℕ → List Round → Process → List ℕ → Exec Ran
  main printed argc delay_ms size open_src open_dst rounds p file =
      elim (limit_of argc delay_ms size) [
        | none ↦ done (exits (pos 1))
        | some max_dst_len ↦ do
          got ← cyclic_file_relay printed max_dst_len open_src open_dst rounds p file
          done (relays got)
      ]
