-- ===== src/Follow/Served.antt =====
-- What `process_event` of fdwatch/evrdr.c reads and prints on the events of one turn, where the system
-- serves it.
use bsl45_misc_tools.Prelude.{
  ℕ, zero, suc, ◌-◌, ◌≤◌, ◌≡◌, refl, ap, sym, subst, ◌∙◌, List, [], ◌∷◌, ◌++◌, Bool, true, false,
  ◌||◌, leb_ℤ, if◌then◌else◌, some, pos, negsuc, All, length, length-drop, length-take, take, drop,
  arith, append-nil,
}
use bsl45_misc_tools.FdIo.{Answer, has_flag}
use bsl45_misc_tools.FdIo.Writes.{progress, IsServed}
use bsl45_misc_tools.FdIo.Streams.{nread-served}
use bsl45_misc_tools.Follow.Events.{
  Watch, Event, read_event, vnode_event, other_event, note_delete, note_rename, buf_len, len_of,
  as_string, processed, after_nread, process_event,
}
use bsl45_misc_tools.Follow.Loop.{next_event, process_events}
use bsl45_misc_tools.Follow.Pieces.{
  total, total-append, prints, HasRead, HasRead-nothing, HasRead-append,
}

-- What an event asks to be read: as many bytes as are announced, and at most 1024.
abbrev pub lens_of_event : Event → List ℕ
lens_of_event (read_event (pos zero)) = []
lens_of_event (read_event (pos (suc n))) = len_of (suc n) ∷ []
lens_of_event (read_event (negsuc n)) = []
lens_of_event (vnode_event fflags) = []
lens_of_event other_event = []

abbrev pub lens_of_events : List (Event × List Answer) → List ℕ
lens_of_events [] = []
lens_of_events ((e, answers) ∷ events) = lens_of_event e ++ lens_of_events events

-- A read is served or interrupted, with an answer for each byte it can ask for, and the file is not
-- deleted or renamed.
abbrev pub IsServedEvent : Event × List Answer → Type 0
IsServedEvent (read_event n, answers) = All IsServed answers × (buf_len ≤ progress answers)
IsServedEvent (vnode_event fflags, answers) =
    (has_flag fflags note_delete || has_flag fflags note_rename) ≡ false
IsServedEvent (other_event, answers) = Unit

len_of-bounds : (n : ℕ) → (1 ≤ len_of (suc n)) × (len_of (suc n) ≤ buf_len)
len_of-bounds n = ground arith

-- A read that gets all that it asks for.
read_event-HasRead :
    (answers : List Answer) (n : ℕ) (w : Watch)
    → All IsServed answers
    → buf_len ≤ progress answers
    → len_of (suc n) ≤ length w.source
    → (w' : Watch) × (process_event answers (read_event (pos (suc n))) false w
        ≡ some (processed (pos 0) false w'))
      × HasRead (len_of (suc n) ∷ []) w.source w w'
unfolding process_event after_nread
read_event-HasRead answers n w served enough there =
    let len = len_of (suc n) in
    let (r, e, b, t, k) =
      nread-served 0 answers len w.process w.source served
        (omega (arith, enough, len_of-bounds n)) in
    let size : length r.buf ≡ len =
      omega (arith, ap (λ l. length l) b, length-take len w.source, there) in
    let got : leb_ℤ r.result (pos 0) ≡ false =
      ap (λ i. leb_ℤ i (pos 0)) (k ∙ ap pos size) ∙ ground (arith, len_of-bounds n) in
    let w' : Watch = record w {
      process = r.process;
      source = r.source;
      taken = w.taken ++ r.buf;
      printed = if w.print then w.printed ++ (as_string r.buf ∷ []) else w.printed;
    } in
    let one : len ≡ total (len ∷ []) = omega arith in
    (
      w',
      ap (λ o. after_nread false w o) e ∙ rw (got) refl,
      record {
        taken = ap (λ l. w.taken ++ l) (b ∙ ap (λ j. take j w.source) one);
        unread = t ∙ ap (λ j. drop j w.source) one;
        printed =
            ap (λ l. if w.print then w.printed ++ (as_string l ∷ []) else w.printed) b
            ∙ shown w.print w.printed (take len w.source);
        same_print = refl;
        same_left = refl;
      },
    )
  where
    shown :
        (b : Bool) (before : List (List ℕ)) (buf : List ℕ)
        → (if b then before ++ (as_string buf ∷ []) else before) ≡ before ++ prints b (buf ∷ [])
    shown true before buf = refl
    shown false before buf = sym (append-nil before)

process_event-HasRead :
    (answers : List Answer) (e : Event) (w : Watch)
    → IsServedEvent (e, answers)
    → total (lens_of_event e) ≤ length w.source
    → (w' : Watch) × (process_event answers e false w ≡ some (processed (pos 0) false w'))
      × HasRead (lens_of_event e) w.source w w'
unfolding process_event
process_event-HasRead answers (read_event (pos zero)) w h k = (w, refl, HasRead-nothing w)
process_event-HasRead answers (read_event (negsuc n)) w h k = (w, refl, HasRead-nothing w)
process_event-HasRead answers (read_event (pos (suc n))) w h k =
    read_event-HasRead answers n w h.0 h.1 (omega (arith, k))
process_event-HasRead answers (vnode_event fflags) w h k =
    (w, ap (λ b. some (processed (pos 0) b w)) h, HasRead-nothing w)
process_event-HasRead answers other_event w h k = (w, refl, HasRead-nothing w)

-- How many bytes are left unread.
pub unread-length :
    (lens bytes : List ℕ) (w w' : Watch)
    → HasRead lens bytes w w'
    → length w'.source ≡ length bytes - total lens
unread-length lens bytes w w' h = ap (λ l. length l) h.unread ∙ length-drop (total lens) bytes

pub process_events-HasRead :
    (events : List (Event × List Answer)) (w : Watch)
    → All IsServedEvent events
    → total (lens_of_events events) ≤ length w.source
    → (w' : Watch) × (process_events events false w ≡ some (processed (pos 0) false w'))
      × HasRead (lens_of_events events) w.source w w'
unfolding process_events
process_events-HasRead [] w h k = (w, refl, HasRead-nothing w)
process_events-HasRead ((e, answers) ∷ events) w h k =
    let both = total-append (lens_of_event e) (lens_of_events events) in
    let (w1, one, first) = process_event-HasRead answers e w h.0 (omega (arith, k, both)) in
    let left = unread-length (lens_of_event e) w.source w w1 first in
    let (w2, more, rest) = process_events-HasRead events w1 h.1 (omega (arith, k, both, left)) in
    let next =
      subst (λ l. HasRead (lens_of_events events) l w1 w2) (sym (append-nil w1.source)) rest in
    (
      w2,
      ap (λ o. next_event (process_events events) o) one ∙ more,
      subst (λ l. HasRead (lens_of_event e ++ lens_of_events events) l w w2) (append-nil w.source)
          (HasRead-append (lens_of_event e) (lens_of_events events) w.source [] w w1 w2 first
            (omega (arith, k, both)) next),
    )
