-- ===== src/Follow/Tests.antt =====
-- Tests of the model of fdwatch/evrdr.c.
use bsl45_misc_tools.Prelude.{
  ℕ, zero, suc, true, All, ◌≡◌, inr, refl, ap, List, [], ◌∷◌, false, none, pos, replicate, arith,
  ◌||◌,
}
use bsl45_misc_tools.FdIo.{Answer, gives, has_flag}
use bsl45_misc_tools.FdIo.Input.{nread}
use bsl45_misc_tools.FdIo.Writes.{progress, IsServed}
use bsl45_misc_tools.Follow.Events.{
  Watch, read_event, vnode_event, after_nread, process_event, Reopening, re_open, note_delete,
  note_rename,
}
use bsl45_misc_tools.Follow.Loop.{
  Turn, process_events, after_events, after_processed, on_events, watching, watch_loop, follow,
}
use bsl45_misc_tools.Follow.Pieces.{HasRead}
use bsl45_misc_tools.Follow.Whole.{follow-HasRead}

abbrev opens_well : Reopening
opens_well = record {
  close = none;
  opened = none;
  add_vnode = none;
  add_read = none;
  contents = 7 ∷ 8 ∷ [];
}

abbrev three_bytes : Watch
three_bytes = record {
  process = record { errno = 0; reports = [] };
  print = true;
  source = 1 ∷ 2 ∷ 3 ∷ [];
  taken = [];
  left = [];
  printed = [];
}

-- Two bytes have been announced, and the file is renamed in the same turn: the third one is not read.
abbrev renames_file : Turn
renames_file = record {
  grown = [];
  events = inr ((read_event (pos 2), gives 2 ∷ []) ∷ (vnode_event note_rename, []) ∷ []);
  reopening = opens_well;
}

follow_runs :
    follow none opens_well (renames_file ∷ []) three_bytes
    ≡ watching (record {
      process = record { errno = 0; reports = [] };
      print = true;
      source = 7 ∷ 8 ∷ [];
      taken = [];
      left = (3 ∷ []) ∷ [];
      printed = (1 ∷ 2 ∷ []) ∷ [];
    })
unfolding follow watch_loop on_events after_processed after_events process_events process_event
    after_nread nread re_open has_flag
follow_runs = refl

many : ℕ → List Answer
many n = replicate n (gives 1)

many-progress : (n : ℕ) → progress (many n) ≡ n
unfolding progress many
many-progress zero = refl
many-progress (suc n) = ap suc (many-progress n)

many-IsServed : (n : ℕ) → All IsServed (many n)
unfolding many
many-IsServed zero = tt
many-IsServed (suc n) = (tt, many-IsServed n)

-- A byte comes and four are announced, then a zero and another byte, and the attributes of the file
-- change.
abbrev plain : List Turn
plain =
    record {
      grown = 4 ∷ [];
      events = inr ((read_event (pos 4), many 1024) ∷ (vnode_event 8, []) ∷ []);
      reopening = opens_well;
    }
    ∷ record {
      grown = 0 ∷ 5 ∷ [];
      events = inr ((read_event (pos 2), many 1024) ∷ []);
      reopening = opens_well;
    }
    ∷ []

attributes : (has_flag 8 note_delete || has_flag 8 note_rename) ≡ false
unfolding has_flag
attributes = refl

follow-HasRead_example :
    (w' : Watch) × (follow none opens_well plain three_bytes ≡ watching w')
    × HasRead (4 ∷ 2 ∷ []) (1 ∷ 2 ∷ 3 ∷ 4 ∷ 0 ∷ 5 ∷ []) three_bytes w'
follow-HasRead_example =
    follow-HasRead opens_well plain three_bytes
      (
        ((many-IsServed 1024, omega (arith, many-progress 1024)), (attributes, tt)),
        (((many-IsServed 1024, omega (arith, many-progress 1024)), tt), tt),
      )
      (omega arith, (omega arith, tt))
