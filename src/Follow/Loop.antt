-- ===== src/Follow/Loop.antt =====
-- `follow` of fdwatch/evrdr.c. The lines that say how far it is are left out.
use bsl45_misc_tools.Prelude.{
  ℕ, zero, suc, List, [], ◌∷◌, ◌++◌, ◌⊎◌, inl, inr, Bool, true, false, Option, none, some, ◌&&◌,
  if◌then◌else◌, ℤ, pos, negsuc,
}
use bsl45_misc_tools.FdIo.{Answer}
use bsl45_misc_tools.Follow.Events.{
  Watch, Event, Processed, processed, process_event, Reopening, failing, kq_add, re_open,
}

-- One turn of the loop: the bytes that the open file has got since the turn before; what `kevent` gives,
-- an error or events, each with the answers that a read on it gets; and what opening the file again gets.
pub record Turn : Type 0 where
  pub grown : List ℕ
  pub events : ℕ ⊎ List (Event × List Answer)
  pub reopening : Reopening

abbrev pub is_zero : ℤ → Bool
is_zero (pos zero) = true
is_zero (pos (suc n)) = false
is_zero (negsuc n) = false

-- After an event: an error ends the turn.
abbrev pub next_event : (Bool → Watch → Option Processed) → Option Processed → Option Processed
next_event rest none = none
next_event rest (some r) = if is_zero r.rc then rest r.reopen r.watch else some r

-- The events of a turn, up to one that fails.
unfoldable pub process_events : List (Event × List Answer) → Bool → Watch → Option Processed
process_events [] reopen w = some (processed (pos 0) reopen w)
process_events ((e, answers) ∷ events) reopen w =
    next_event (process_events events) (process_event answers e reopen w)

-- Where the loop has got to: its head, a read without an answer, or the return.
pub data Following : Type 0 where
  watching : Watch → Following
  awaiting : Following
  returned : ℤ → Watch → Following

abbrev pub grow : List ℕ → Watch → Watch
grow bytes w = record w { source = w.source ++ bytes }

-- What follows the events of a turn: the file is opened again, if a flag is set.
unfoldable pub after_events : Reopening → Processed → ℤ × Watch
after_events a r = if is_zero r.rc && r.reopen then re_open a r.watch else (r.rc, r.watch)

abbrev pub next_turn : (Watch → Following) → ℤ × Watch → Following
next_turn rest (rc, w) = if is_zero rc then rest w else returned rc w

unfoldable pub after_processed : (Watch → Following) → Reopening → Option Processed → Following
after_processed rest a none = awaiting
after_processed rest a (some r) = next_turn rest (after_events a r)

-- An error of `kevent` or no events at all, which is a timeout, end the loop with the `rc` of the turn
-- before, which is 0.
unfoldable pub on_events :
    (Watch → Following) → Reopening → Watch → ℕ ⊎ List (Event × List Answer) → Following
on_events rest a w (inl e) = returned (pos 0) ((failing e w).1)
on_events rest a w (inr []) = returned (pos 0) w
on_events rest a w (inr (event ∷ events)) =
    after_processed rest a (process_events (event ∷ events) false w)

unfoldable pub watch_loop : List Turn → Watch → Following
watch_loop [] w = watching w
watch_loop (t ∷ turns) w = on_events (watch_loop turns) t.reopening (grow t.grown w) t.events

-- `kqueue` can fail; what the first `kq_add` returns is not looked at, but its errors are reported.
unfoldable pub follow : Option ℕ → Reopening → List Turn → Watch → Following
follow (some e) first turns w = returned (negsuc 0) ((failing e w).1)
follow none first turns w = watch_loop turns ((kq_add first w).1)
