-- ===== src/Follow/Whole.antt =====
-- What the watch loop of fdwatch/evrdr.c reads and prints, where the system serves it.
use bsl45_misc_tools.Prelude.{
  ℕ, ◌-◌, ◌+◌, ◌≤◌, ◌≡◌, ◌⊎◌, inl, inr, refl, ap, sym, subst, ◌∙◌, List, [], ◌∷◌, ◌++◌, none, All,
  length, length-append, take, arith, Option-cases, append-nil, append_assoc,
}
use bsl45_misc_tools.FdIo.{Answer}
use bsl45_misc_tools.Follow.Events.{Watch, Event, Reopening, failing, kq_add}
use bsl45_misc_tools.Follow.Loop.{
  Turn, after_processed, on_events, Following, watching, grow, after_events, watch_loop, follow,
}
use bsl45_misc_tools.Follow.Pieces.{total, pieces, prints, HasRead, HasRead-nothing, HasRead-append}
use bsl45_misc_tools.Follow.Served.{
  lens_of_events, IsServedEvent, unread-length, process_events-HasRead,
}

abbrev pub lens_of_turn : ℕ ⊎ List (Event × List Answer) → List ℕ
lens_of_turn (inl e) = []
lens_of_turn (inr events) = lens_of_events events

abbrev pub all_lens : List Turn → List ℕ
all_lens [] = []
all_lens (t ∷ turns) = lens_of_turn t.events ++ all_lens turns

abbrev pub all_grown : List Turn → List ℕ
all_grown [] = []
all_grown (t ∷ turns) = t.grown ++ all_grown turns

-- `kevent` gives some events.
abbrev pub HasServed : ℕ ⊎ List (Event × List Answer) → Type 0
HasServed (inl e) = ⊥
HasServed (inr []) = ⊥
HasServed (inr (event ∷ events)) = All IsServedEvent (event ∷ events)

abbrev pub IsServedTurn : Turn → Type 0
IsServedTurn t = HasServed t.events

-- No turn is told of more bytes than are there, `n` of them being unread before the first one.
abbrev pub IsAnnounced : List Turn → ℕ → Type 0
IsAnnounced [] n = Unit
IsAnnounced (t ∷ turns) n =
    (total (lens_of_turn t.events) ≤ n + length t.grown)
    × IsAnnounced turns (n + length t.grown - total (lens_of_turn t.events))

-- The file grows, and is read from then on.
HasRead-grow :
    (lens grown : List ℕ) (w w' : Watch)
    → HasRead lens (w.source ++ grown) (grow grown w) w'
    → HasRead lens (w.source ++ grown) w w'
HasRead-grow lens grown w w' h = record {
  taken = h.taken;
  unread = h.unread;
  printed = h.printed;
  same_print = h.same_print;
  same_left = h.same_left;
}

on_events-HasRead :
    (rest : Watch → Following) (a : Reopening) (events : ℕ ⊎ List (Event × List Answer)) (w : Watch)
    → HasServed events
    → total (lens_of_turn events) ≤ length w.source
    → (w' : Watch) × (on_events rest a w events ≡ rest w')
      × HasRead (lens_of_turn events) w.source w w'
unfolding on_events after_processed after_events
on_events-HasRead rest a (inl e) w h k = absurd h
on_events-HasRead rest a (inr []) w h k = absurd h
on_events-HasRead rest a (inr (event ∷ events)) w h k =
    let (w', e, done_all) = process_events-HasRead (event ∷ events) w h k in
    (w', ap (λ o. after_processed rest a o) e, done_all)

watch_loop-HasRead :
    (turns : List Turn) (w : Watch)
    → All IsServedTurn turns
    → IsAnnounced turns (length w.source)
    → (w' : Watch) × (watch_loop turns w ≡ watching w')
      × HasRead (all_lens turns) (w.source ++ all_grown turns) w w'
unfolding watch_loop
watch_loop-HasRead [] w h k =
    (w, refl, subst (λ l. HasRead [] l w w) (sym (append-nil w.source)) (HasRead-nothing w))
watch_loop-HasRead (t ∷ turns) w h k =
    let lens = lens_of_turn t.events in
    let bytes = w.source ++ t.grown in
    let size = length-append w.source t.grown in
    let there : total lens ≤ length bytes = omega (arith, k.0, size) in
    let (w1, e, grown_read) =
      on_events-HasRead (watch_loop turns) t.reopening t.events (grow t.grown w) h.0 there in
    let first = HasRead-grow lens t.grown w w1 grown_read in
    let left : length w.source + length t.grown - total lens ≡ length w1.source =
      omega (arith, unread-length lens bytes w w1 first, size) in
    let (w2, es, rest) =
      watch_loop-HasRead turns w1 h.1 (subst (λ n. IsAnnounced turns n) left k.1) in
    (
      w2,
      e ∙ es,
      subst (λ l. HasRead (lens ++ all_lens turns) l w w2)
          (append_assoc w.source t.grown (all_grown turns))
          (HasRead-append lens (all_lens turns) bytes (all_grown turns) w w1 w2 first there rest),
    )

-- Errors of `kevent` at the start change nothing but `errno` and what is reported.
kq_add-field :
    {A : Type 0} (first : Reopening) (w : Watch) (f : Watch → A)
    → ((v : Watch) (e : ℕ) → f ((failing e v).1) ≡ f v)
    → f ((kq_add first w).1) ≡ f w
kq_add-field first w f same = elim (Option-cases first.add_vnode) [
  | inl added ↦ elim (Option-cases first.add_read) [
    | inl added' ↦ rw (added, added') refl
    | inr (e, out) ↦ rw (added, out) (same w e)
  ]
  | inr (e, out) ↦ rw (out) (same w e)
]

kq_add-source : (first : Reopening) (w : Watch) → ((kq_add first w).1).source ≡ w.source
kq_add-source first w = kq_add-field first w (λ v. v.source) (λ v e. refl)

kq_add-HasRead :
    (lens bytes : List ℕ) (first : Reopening) (w w' : Watch)
    → HasRead lens bytes ((kq_add first w).1) w'
    → HasRead lens bytes w w'
kq_add-HasRead lens bytes first w w' h = record {
  taken = h.taken ∙ ap (λ l. l ++ take (total lens) bytes) same_taken;
  unread = h.unread;
  printed =
      h.printed
      ∙ ap (λ l. l ++ prints ((kq_add first w).1).print (pieces lens bytes)) same_printed
      ∙ ap (λ b. w.printed ++ prints b (pieces lens bytes)) same_flag;
  same_print = h.same_print ∙ same_flag;
  same_left = h.same_left ∙ kq_add-field first w (λ v. v.left) (λ v e. refl);
}
  where
    same_taken : ((kq_add first w).1).taken ≡ w.taken
    same_taken = kq_add-field first w (λ v. v.taken) (λ v e. refl)

    same_printed : ((kq_add first w).1).printed ≡ w.printed
    same_printed = kq_add-field first w (λ v. v.printed) (λ v e. refl)

    same_flag : ((kq_add first w).1).print ≡ w.print
    same_flag = kq_add-field first w (λ v. v.print) (λ v e. refl)

-- Where `kqueue` succeeds, the file is not deleted or renamed, the turns have events that announce no
-- more bytes than are there, and each read is served or interrupted, `follow` is at the head of its
-- loop after any number of turns. For each event of a read it has taken the next bytes of the file, as
-- many as are announced but at most 1024, each byte once and in order, the ones behind them are
-- unread, and with the flag to print it has printed each of these pieces up to its first zero byte, and
-- without it nothing. It has opened no other file.
pub follow-HasRead :
    (first : Reopening) (turns : List Turn) (w : Watch)
    → All IsServedTurn turns
    → IsAnnounced turns (length w.source)
    → (w' : Watch) × (follow none first turns w ≡ watching w')
      × HasRead (all_lens turns) (w.source ++ all_grown turns) w w'
unfolding follow
follow-HasRead first turns w h k =
    let start = (kq_add first w).1 in
    let unchanged : start.source ≡ w.source = kq_add-source first w in
    let (w', e, done_all) =
      watch_loop-HasRead turns start h
        (subst (λ l. IsAnnounced turns (length l)) (sym unchanged) k) in
    (
      w',
      e,
      kq_add-HasRead (all_lens turns) (w.source ++ all_grown turns) first w w' (
          subst (λ l. HasRead (all_lens turns) (l ++ all_grown turns) start w') unchanged done_all),
    )
