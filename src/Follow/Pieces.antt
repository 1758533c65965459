-- ===== src/Follow/Pieces.antt =====
-- A file that fdwatch/evrdr.c reads piece by piece.
use bsl45_misc_tools.Prelude.{
  ℕ, zero, suc, ◌+◌, ◌≤◌, ◌≡◌, refl, ap, sym, ◌∙◌, List, [], ◌∷◌, ◌++◌, Bool, true, false, map,
  length, length-drop, take, drop, drop-drop, arith, append_assoc, append-nil,
}
use bsl45_misc_tools.Follow.Events.{Watch, as_string}

abbrev pub total : List ℕ → ℕ
total [] = 0
total (n ∷ lens) = n + total lens

-- The bytes, cut into pieces of these lengths.
abbrev pub pieces : List ℕ → List ℕ → List (List ℕ)
pieces [] bytes = []
pieces (n ∷ lens) bytes = take n bytes ∷ pieces lens (drop n bytes)

-- What is printed of them.
abbrev pub prints : Bool → List (List ℕ) → List (List ℕ)
prints false bufs = []
prints true bufs = map as_string bufs

-- Of these bytes, pieces of these lengths have been read, and each was printed, if that is asked for.
pub record HasRead (lens bytes : List ℕ) (w w' : Watch) : Type 0 where
  pub taken : w'.taken ≡ w.taken ++ take (total lens) bytes
  pub unread : w'.source ≡ drop (total lens) bytes
  pub printed : w'.printed ≡ w.printed ++ prints w.print (pieces lens bytes)
  pub same_print : w'.print ≡ w.print
  pub same_left : w'.left ≡ w.left

pub total-append : (lens more : List ℕ) → total (lens ++ more) ≡ total lens + total more
total-append [] more = omega arith
total-append (n ∷ lens) more = omega (arith, total-append lens more)

take_nil : (k : ℕ) → take {A = ℕ} k [] ≡ []
take_nil zero = refl
take_nil (suc k) = refl

take-add : (n m : ℕ) (xs : List ℕ) → take (n + m) xs ≡ take n xs ++ take m (drop n xs)
take-add zero m xs = let e : 0 + m ≡ m = omega arith in ap (λ k. take k xs) e
take-add (suc n) m [] = take_nil (suc n + m) ∙ sym (take_nil m)
take-add (suc n) m (x ∷ xs) =
    let e : suc n + m ≡ suc (n + m) = omega arith in
    ap (λ k. take k (x ∷ xs)) e ∙ ap (λ l. x ∷ l) (take-add n m xs)

take-append_inside : (n : ℕ) (xs ys : List ℕ) → n ≤ length xs → take n (xs ++ ys) ≡ take n xs
take-append_inside zero xs ys h = refl
take-append_inside (suc n) [] ys h = absurd (omega arith)
take-append_inside (suc n) (x ∷ xs) ys h =
    ap (λ l. x ∷ l) (take-append_inside n xs ys (omega arith))

drop-append_inside : (n : ℕ) (xs ys : List ℕ) → n ≤ length xs → drop n (xs ++ ys) ≡ drop n xs ++ ys
drop-append_inside zero xs ys h = refl
drop-append_inside (suc n) [] ys h = absurd (omega arith)
drop-append_inside (suc n) (x ∷ xs) ys h = drop-append_inside n xs ys (omega arith)

pieces-append :
    (lens more bytes : List ℕ)
    → pieces (lens ++ more) bytes ≡ pieces lens bytes ++ pieces more (drop (total lens) bytes)
pieces-append [] more bytes = refl
pieces-append (n ∷ lens) more bytes =
    ap (λ l. take n bytes ∷ l)
      (pieces-append lens more (drop n bytes)
        ∙ ap (λ r. pieces lens (drop n bytes) ++ pieces more r) (drop-drop n (total lens) bytes))

-- Pieces that were there stay as they are when bytes come.
pieces-append_inside :
    (lens bytes later : List ℕ)
    → total lens ≤ length bytes
    → pieces lens (bytes ++ later) ≡ pieces lens bytes
pieces-append_inside [] bytes later h = refl
pieces-append_inside (n ∷ lens) bytes later h =
    ap (λ l. l ∷ pieces lens (drop n (bytes ++ later)))
      (take-append_inside n bytes later (omega arith))
    ∙ ap (λ r. take n bytes ∷ pieces lens r) (drop-append_inside n bytes later (omega arith))
    ∙ ap (λ l. take n bytes ∷ l)
        (pieces-append_inside lens (drop n bytes) later (omega (arith, length-drop n bytes)))

prints-append :
    (b : Bool) (xs ys : List (List ℕ)) → prints b (xs ++ ys) ≡ prints b xs ++ prints b ys
prints-append false xs ys = refl
prints-append true [] ys = refl
prints-append true (x ∷ xs) ys = ap (λ l. as_string x ∷ l) (prints-append true xs ys)

pub HasRead-nothing : (w : Watch) → HasRead [] w.source w w
HasRead-nothing w = record {
  taken = sym (append-nil w.taken);
  unread = refl;
  printed = sym (append-nil w.printed) ∙ ap (λ l. w.printed ++ l) (sym (no_pieces w.print));
  same_print = refl;
  same_left = refl;
}
  where
    no_pieces : (b : Bool) → prints b [] ≡ []
    no_pieces false = refl
    no_pieces true = refl

-- After some pieces more bytes come, and then the next pieces are read.
pub HasRead-append :
    (lens more bytes later : List ℕ) (w w1 w2 : Watch)
    → HasRead lens bytes w w1
    → total lens ≤ length bytes
    → HasRead more (w1.source ++ later) w1 w2
    → HasRead (lens ++ more) (bytes ++ later) w w2
HasRead-append lens more bytes later w w1 w2 h inside k =
    let n = total lens in
    let m = total more in
    let all = bytes ++ later in
    let next : w1.source ++ later ≡ drop n all =
      ap (λ l. l ++ later) h.unread ∙ sym (drop-append_inside n bytes later inside) in
    let first : take n bytes ≡ take n all = sym (take-append_inside n bytes later inside) in
    let cut : pieces lens bytes ≡ pieces lens all =
      sym (pieces-append_inside lens bytes later inside) in
    record {
      taken =
          k.taken
          ∙ ap (λ l. l ++ take m (w1.source ++ later)) h.taken
          ∙ append_assoc w.taken (take n bytes) (take m (w1.source ++ later))
          ∙ ap (λ l. w.taken ++ (l ++ take m (w1.source ++ later))) first
          ∙ ap (λ l. w.taken ++ (take n all ++ take m l)) next
          ∙ ap (λ l. w.taken ++ l) (sym (take-add n m all))
          ∙ ap (λ j. w.taken ++ take j all) (sym (total-append lens more));
      unread =
          k.unread
          ∙ ap (λ l. drop m l) next
          ∙ drop-drop n m all
          ∙ ap (λ j. drop j all) (sym (total-append lens more));
      printed =
          k.printed
          ∙ ap (λ b. w1.printed ++ prints b (pieces more (w1.source ++ later))) h.same_print
          ∙ ap (λ l. l ++ prints w.print (pieces more (w1.source ++ later))) h.printed
          ∙ append_assoc w.printed (prints w.print (pieces lens bytes))
              (prints w.print (pieces more (w1.source ++ later)))
          ∙ ap
              (λ l.
                w.printed
                ++ (prints w.print l ++ prints w.print (pieces more (w1.source ++ later))))
              cut
          ∙ ap
              (λ l.
                w.printed ++ (prints w.print (pieces lens all) ++ prints w.print (pieces more l)))
              next
          ∙ ap (λ l. w.printed ++ l)
              (sym (prints-append w.print (pieces lens all) (pieces more (drop n all))))
          ∙ ap (λ l. w.printed ++ prints w.print l) (sym (pieces-append lens more all));
      same_print = k.same_print ∙ h.same_print;
      same_left = k.same_left ∙ h.same_left;
    }
