-- ===== src/Relay/Tests.antt =====
-- Tests of the model of fdwatch/frelay.c.
use bsl45_misc_tools.Prelude.{
  ℕ, zero, suc, ap, All, ◌≡◌, refl, List, [], ◌∷◌, Option, none, some, pos, negsuc, ◌+ℤ◌, Exec,
  done, replicate, arith,
}
use bsl45_misc_tools.FdIo.{Process, Answer, gives, restore, has_flag}
use bsl45_misc_tools.FdIo.Transfer.{Moved, transfer, portion, after_read, after_write, end_transfer}
use bsl45_misc_tools.FdIo.Output.{nwrite, end_nwrite}
use bsl45_misc_tools.FdIo.Input.{nread}
use bsl45_misc_tools.FdIo.Writes.{progress, IsServed}
use bsl45_misc_tools.FdIo.Reads.{IsGiven}
use bsl45_misc_tools.Relay.Files.{rollover, Relay, Round, failed}
use bsl45_misc_tools.Relay.Loop.{
  running, returned, relays, limit_of, beginning, relay, main, round, after_transfer, rewind,
  count_sent, is_full, after_rollover, pause,
}
use bsl45_misc_tools.Relay.Rounds.{IsServedRound, IsRelayed, portions, written}
use bsl45_misc_tools.Relay.Served.{main-IsRelayed}
use bsl45_misc_tools.Relay.Stale.{relay-interrupted}

many : ℕ → List Answer
many n = replicate n (gives 1)

many-progress : (n : ℕ) → progress (many n) ≡ n
unfolding progress many
many-progress zero = refl
many-progress (suc n) = ap suc (many-progress n)

many-IsServed : (n : ℕ) → All IsServed (many n)
unfolding many
many-IsServed zero = tt
many-IsServed (suc n) = (tt, many-IsServed n)

many-IsGiven : (n : ℕ) → All IsGiven (many n)
unfolding many
many-IsGiven zero = tt
many-IsGiven (suc n) = (tt, many-IsGiven n)

-- A round in which each call of the system moves a byte, and the pause ends in some way.
abbrev bytewise : Option ℕ → Round
bytewise sleep = record {
  reads = many 10240;
  writes = many 10240;
  seek = none;
  rename = none;
  fsync = none;
  close = none;
  opened = none;
  unlink = none;
  sleep = sleep;
}

bytewise-IsServedRound : (sleep : Option ℕ) → IsServedRound (bytewise sleep)
bytewise-IsServedRound sleep = record {
  reads_served = many-IsServed 10240;
  writes_served = many-IsServed 10240;
  enough_reads = omega (arith, many-progress 10240);
  enough_writes = omega (arith, many-progress 10240);
  seeks = refl;
  renames = refl;
  syncs = refl;
  closes = refl;
  opens = refl;
  unlinks = refl;
}

-- A system whose `sendfile` has no answer.
abbrev without_sendfile : Option ℕ → ℕ → Process → Exec (Option Moved)
without_sendfile offset count p = done none

abbrev untouched : Process
untouched = record { errno = 0; reports = [] }

abbrev three_bytes : List ℕ
three_bytes = 1 ∷ 2 ∷ 3 ∷ []

-- The names are seven bytes longer than the path, which has twelve.
abbrev name_length : ℕ → ℕ
name_length c = 19

accepted : limit_of 5 (pos 100) (pos 20000) ≡ some 20000
unfolding limit_of
accepted = refl

main-IsRelayed_example :
    (r' : Relay) × (main without_sendfile name_length 5
        (pos 100)
        (pos 20000)
        none
        none
        (bytewise none ∷ bytewise none ∷ bytewise none ∷ [])
        untouched
        three_bytes
      ≡ done (relays (running r')))
    × IsRelayed 20000 three_bytes r'
    × (written r' ≡ portions 3 three_bytes three_bytes)
    × (r'.kept ≡ [])
main-IsRelayed_example =
    main-IsRelayed without_sendfile name_length 5 (pos 100) (pos 20000) 20000
      (bytewise none ∷ bytewise none ∷ bytewise none ∷ []) untouched three_bytes (λ c. omega arith)
      accepted (omega arith) refl
      (
        bytewise-IsServedRound none,
        (bytewise-IsServedRound none, (bytewise-IsServedRound none, tt)),
      )
      (refl, (refl, (refl, tt)))

-- A pause is interrupted after the first round.
relay-interrupted_example :
    (r1 : Relay) × (r2 : Relay) × IsRelayed 20000 three_bytes r1
    × (relay without_sendfile name_length 20000
          (bytewise (some 4) ∷ [])
          (beginning untouched three_bytes)
        ≡ done (running (failed 4 r1)))
    × (relay without_sendfile name_length 20000
          (bytewise (some 4) ∷ bytewise none ∷ [])
          (beginning untouched three_bytes)
        ≡ done (returned (negsuc 0) r2))
    × (r2.out ≡ r1.out)
    × (r2.moved ≡ r1.moved)
    × (r2.kept ≡ r1.kept)
relay-interrupted_example =
    relay-interrupted without_sendfile name_length 20000 4 three_bytes (bytewise (some 4))
      (bytewise none) [] (beginning untouched three_bytes)
      (record { prints = λ c. omega arith; some_room = omega arith; no_wrap = omega arith })
      (bytewise-IsServedRound (some 4)) refl (omega arith) (many-IsGiven 10240)
      (omega (arith, many-progress 10240))
      (record {
        no_error = refl;
        same_file = refl;
        counted = refl;
        below = omega arith;
        times = 1;
        relayed = refl;
        sizes = tt;
      })

-- A round in which the whole source is read and written at once.
abbrev at_once : Round
at_once = record {
  reads = gives 5 ∷ gives 0 ∷ [];
  writes = gives 3 ∷ [];
  seek = none;
  rename = none;
  fsync = none;
  close = none;
  opened = none;
  unlink = none;
  sleep = none;
}

-- With a limit of five bytes the copy is replaced after the first round, whose bytes are counted twice,
-- and then the source is read from the start again.
relay_runs :
    relay without_sendfile name_length 5
      (at_once ∷ at_once ∷ at_once ∷ [])
      (beginning untouched three_bytes)
    ≡ done (
        running (record {
          process = untouched;
          file = three_bytes;
          source = [];
          out = [];
          kept = [];
          moved = three_bytes ∷ three_bytes ∷ [];
          ntotal = pos 0;
          nrolls = 2;
        }))
unfolding relay round transfer portion after_read after_write end_transfer ◌+ℤ◌ nread nwrite
    end_nwrite restore has_flag after_transfer rewind count_sent is_full rollover after_rollover
    pause
relay_runs = refl
