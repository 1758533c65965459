-- ===== src/XvDat/Marks.antt =====
-- The first free slot of a list of marks, as fdwatch/xvdat.c keeps it in `avail`.
use bsl45_misc_tools.Prelude.{
  ℕ, zero, suc, ◌+◌, ◌≤◌, ◌<◌, ◌≡◌, refl, ap, sym, ◌∙◌, List, [], ◌∷◌, ◌++◌, Bool, true, false,
  Option, none, some, if◌then◌else◌, pos, length, get_or, set, drop, replicate, arith, none-ne-some,
  ltb, ltb_ℤ, ◌||◌, ◌≢◌, ℤ, false≢true, true≢false,
}
use bsl45_misc_tools.XvDat.{memchr_zero, found_at, or_later}

-- `avail`, as the marks ask for it.
abbrev pub first_free : List Bool → ℤ
first_free marks = found_at 0 (memchr_zero marks)

-- The taken slots, counted.
unfoldable pub taken_count : List Bool → ℕ
taken_count [] = 0
taken_count (true ∷ marks) = suc (taken_count marks)
taken_count (false ∷ marks) = taken_count marks

or_later_inv : (o : Option ℕ) (i : ℕ) → or_later o ≡ some (suc i) → o ≡ some i
or_later_inv none i e = cc
or_later_inv (some j) i e = cc

or_later-none : (o : Option ℕ) → or_later o ≡ none → o ≡ none
or_later-none none e = refl
or_later-none (some j) e = cc

or_later_zero : (o : Option ℕ) → or_later o ≢ some 0
or_later_zero none e = cc
or_later_zero (some j) e = cc

-- What `memchr` finds is free, and all before it is taken.
pub memchr_zero-found :
    (marks : List Bool) (i : ℕ)
    → memchr_zero marks ≡ some i
    → (i < length marks)
      × (get_or marks i false ≡ false)
      × ((j : ℕ) → j < i → get_or marks j false ≡ true)
unfolding memchr_zero
memchr_zero-found [] i e = absurd (none-ne-some i e)
memchr_zero-found (false ∷ marks) zero e = (omega arith, refl, λ j h. absurd (omega arith))
memchr_zero-found (false ∷ marks) (suc i) e = cc
memchr_zero-found (true ∷ marks) zero e = absurd (or_later_zero (memchr_zero marks) e)
memchr_zero-found (true ∷ marks) (suc i) e =
    let found = memchr_zero-found marks i (or_later_inv (memchr_zero marks) i e) in
    (omega arith, found.1, before marks i found.2)
  where
    before :
        (marks : List Bool) (i : ℕ)
        → ((j : ℕ) → j < i → get_or marks j false ≡ true)
        → (j : ℕ) → j < suc i
        → get_or (true ∷ marks) j false ≡ true
    before marks i h zero k = refl
    before marks i h (suc j) k = h j (omega arith)

-- What is free lies at the first free slot or after it.
pub memchr_zero-none :
    (marks : List Bool) (i : ℕ)
    → memchr_zero marks ≡ none
    → i < length marks
    → get_or marks i false ≡ true
unfolding memchr_zero
memchr_zero-none [] i e h = absurd (omega arith)
memchr_zero-none (false ∷ marks) i e h = cc
memchr_zero-none (true ∷ marks) zero e h = refl
memchr_zero-none (true ∷ marks) (suc i) e h =
    memchr_zero-none marks i (or_later-none (memchr_zero marks) e) (omega arith)

found_at-or_later : (n : ℕ) (o : Option ℕ) → found_at n (or_later o) ≡ found_at (suc n) o
found_at-or_later n none = refl
found_at-or_later n (some i) = ap pos (omega arith)

-- Once the first free slot is taken, the next one is found after it.
pub memchr_zero-take :
    (n : ℕ) (marks : List Bool) (i : ℕ)
    → memchr_zero marks ≡ some i
    → found_at n (memchr_zero (set marks i true))
      ≡ found_at (n + suc i) (memchr_zero (drop (suc i) marks))
unfolding memchr_zero
memchr_zero-take n [] i e = absurd (none-ne-some i e)
memchr_zero-take n (false ∷ marks) zero e =
    let one : suc n ≡ n + 1 = omega arith in
    found_at-or_later n (memchr_zero marks) ∙ ap (λ k. found_at k (memchr_zero marks)) one
memchr_zero-take n (false ∷ marks) (suc i) e = cc
memchr_zero-take n (true ∷ marks) zero e = absurd (or_later_zero (memchr_zero marks) e)
memchr_zero-take n (true ∷ marks) (suc i) e =
    let moved : suc n + suc i ≡ n + suc (suc i) = omega arith in
    found_at-or_later n (memchr_zero (set marks i true))
    ∙ memchr_zero-take (suc n) marks i (or_later_inv (memchr_zero marks) i e)
    ∙ ap (λ k. found_at k (memchr_zero (drop (suc i) marks))) moved

pub memchr_zero-drop :
    (marks : List Bool) (k : ℕ)
    → k < length marks
    → get_or marks k false ≡ false
    → memchr_zero (drop k marks) ≡ some 0
unfolding memchr_zero
memchr_zero-drop [] k h e = absurd (omega arith)
memchr_zero-drop (true ∷ marks) zero h e = absurd (true≢false e)
memchr_zero-drop (false ∷ marks) zero h e = refl
memchr_zero-drop (x ∷ marks) (suc k) h e = memchr_zero-drop marks k (omega arith) e

-- The first free slot after slot `k` was given back.
abbrev pub earlier : ℕ → Option ℕ → ℕ
earlier k none = k
earlier k (some a) = if ltb k a then k else a

earlier-or_later :
    (k : ℕ) (o : Option ℕ) → some (earlier (suc k) (or_later o)) ≡ or_later (some (earlier k o))
earlier-or_later k none = refl
earlier-or_later k (some a) = ground arith

pub memchr_zero-free :
    (marks : List Bool) (k : ℕ)
    → get_or marks k false ≡ true
    → memchr_zero (set marks k false) ≡ some (earlier k (memchr_zero marks))
unfolding memchr_zero
memchr_zero-free [] k e = absurd (false≢true e)
memchr_zero-free (true ∷ marks) zero e = sym (ap some (earlier_zero (memchr_zero marks)))
  where
    earlier_zero : (o : Option ℕ) → earlier 0 (or_later o) ≡ 0
    earlier_zero none = refl
    earlier_zero (some a) = ground arith
memchr_zero-free (false ∷ marks) zero e = absurd (false≢true e)
memchr_zero-free (true ∷ marks) (suc k) e =
    ap or_later (memchr_zero-free marks k e) ∙ sym (earlier-or_later k (memchr_zero marks))
memchr_zero-free (false ∷ marks) (suc k) e = ground arith

-- What the code computes of `avail` and `index` is that slot.
pub avail-earlier :
    (k : ℕ) (o : Option ℕ)
    → (if ltb_ℤ (found_at 0 o) (pos 0) || ltb_ℤ (pos k) (found_at 0 o) then pos k else found_at 0 o)
      ≡ pos (earlier k o)
avail-earlier k none = ground arith
avail-earlier k (some a) = ground arith

pub memchr_zero-pad :
    (marks : List Bool) (n : ℕ)
    → memchr_zero marks ≡ none
    → memchr_zero (marks ++ replicate (suc n) false) ≡ some (length marks)
unfolding memchr_zero
memchr_zero-pad [] n e = refl
memchr_zero-pad (false ∷ marks) n e = cc
memchr_zero-pad (true ∷ marks) n e =
    ap or_later (memchr_zero-pad marks n (or_later-none (memchr_zero marks) e))

pub memchr_zero-pad_some :
    (marks : List Bool) (n i : ℕ)
    → memchr_zero marks ≡ some i
    → memchr_zero (marks ++ replicate n false) ≡ some i
unfolding memchr_zero
memchr_zero-pad_some [] n i e = absurd (none-ne-some i e)
memchr_zero-pad_some (false ∷ marks) n i e = e
memchr_zero-pad_some (true ∷ marks) n zero e = absurd (or_later_zero (memchr_zero marks) e)
memchr_zero-pad_some (true ∷ marks) n (suc i) e =
    ap or_later (memchr_zero-pad_some marks n i (or_later_inv (memchr_zero marks) i e))

-- The number of taken slots follows each change.
pub taken_count-take :
    (marks : List Bool) (i : ℕ)
    → i < length marks
    → get_or marks i false ≡ false
    → taken_count (set marks i true) ≡ suc (taken_count marks)
unfolding taken_count
taken_count-take [] i h e = absurd (omega arith)
taken_count-take (true ∷ marks) zero h e = absurd (true≢false e)
taken_count-take (false ∷ marks) zero h e = refl
taken_count-take (true ∷ marks) (suc i) h e = ap suc (taken_count-take marks i (omega arith) e)
taken_count-take (false ∷ marks) (suc i) h e = taken_count-take marks i (omega arith) e

pub taken_count-free :
    (marks : List Bool) (i : ℕ)
    → get_or marks i false ≡ true
    → suc (taken_count (set marks i false)) ≡ taken_count marks
unfolding taken_count
taken_count-free [] i e = absurd (false≢true e)
taken_count-free (true ∷ marks) zero e = refl
taken_count-free (false ∷ marks) zero e = absurd (false≢true e)
taken_count-free (true ∷ marks) (suc i) e = ap suc (taken_count-free marks i e)
taken_count-free (false ∷ marks) (suc i) e = taken_count-free marks i e

pub taken_count-le-length : (marks : List Bool) → taken_count marks ≤ length marks
unfolding taken_count
taken_count-le-length [] = omega arith
taken_count-le-length (true ∷ marks) = omega (arith, taken_count-le-length marks)
taken_count-le-length (false ∷ marks) = omega (arith, taken_count-le-length marks)

pub taken_count-pad :
    (marks : List Bool) (n : ℕ) → taken_count (marks ++ replicate n false) ≡ taken_count marks
unfolding taken_count
taken_count-pad [] zero = refl
taken_count-pad [] (suc n) = taken_count-pad [] n
taken_count-pad (true ∷ marks) n = ap suc (taken_count-pad marks n)
taken_count-pad (false ∷ marks) n = taken_count-pad marks n

-- With no slot free, all are taken.
pub taken_count-full :
    (marks : List Bool) → memchr_zero marks ≡ none → taken_count marks ≡ length marks
unfolding memchr_zero taken_count
taken_count-full [] e = refl
taken_count-full (false ∷ marks) e = cc
taken_count-full (true ∷ marks) e =
    ap suc (taken_count-full marks (or_later-none (memchr_zero marks) e))
