-- ===== src/DynSync/Insert.antt =====
-- A point that is added sinks to its place among the names: the loop of `ds_add` of
-- debugsync/debugsync_dyn.c.
use bsl45_misc_tools.Prelude.{
  ℕ, suc, ◌+◌, ◌≡◌, ◌≢◌, inl, inr, refl, sym, ◌∙◌, ap, List, [], ◌∷◌, true, Option, none, some,
  done, length, get_elem?, get_or, set, All, arith, Bool-cases,
}
use bsl45_misc_tools.DynSync.Points.{DsPoint, less, name_of, name_at, swap_point, sink}
use bsl45_misc_tools.DynSync.Names.{less_total, IsAscending, Named}
use mathlib.Core.List.{Perm}
use mathlib.Core.List.Perm

-- The first list backwards, before the second: the cells before the one that sinks, nearest first.
abbrev pub rev_append {ℓ} : {A : Type ℓ} → List A → List A → List A
rev_append [] ys = ys
rev_append (x ∷ xs) ys = rev_append xs (x ∷ ys)

module _ {ℓ} {A : Type ℓ} where
  get_elem?-rev_append :
      (xs ys : List A) (k : ℕ) → get_elem? (rev_append xs ys) (length xs + k) ≡ get_elem? ys k
  get_elem?-rev_append [] ys k = ap (λ i. get_elem? ys i) (omega arith)
  get_elem?-rev_append (x ∷ xs) ys k =
      ap (λ i. get_elem? (rev_append xs (x ∷ ys)) i) (omega arith)
      ∙ get_elem?-rev_append xs (x ∷ ys) (suc k)

  get_or-rev_append :
      (xs ys : List A) (k : ℕ) (d : A) → get_or (rev_append xs ys) (length xs + k) d ≡ get_or ys k d
  get_or-rev_append [] ys k d = ap (λ i. get_or ys i d) (omega arith)
  get_or-rev_append (x ∷ xs) ys k d =
      ap (λ i. get_or (rev_append xs (x ∷ ys)) i d) (omega arith)
      ∙ get_or-rev_append xs (x ∷ ys) (suc k) d

  set-rev_append :
      (xs ys : List A) (k : ℕ) (v : A)
      → set (rev_append xs ys) (length xs + k) v ≡ rev_append xs (set ys k v)
  set-rev_append [] ys k v = ap (λ i. set ys i v) (omega arith)
  set-rev_append (x ∷ xs) ys k v =
      ap (λ i. set (rev_append xs (x ∷ ys)) i v) (omega arith)
      ∙ set-rev_append xs (x ∷ ys) (suc k) v

pub length-rev_append :
    {A : Type 0} (xs ys : List A) → length (rev_append xs ys) ≡ length xs + length ys
length-rev_append [] ys = omega arith
length-rev_append (x ∷ xs) ys = omega (arith, length-rev_append xs (x ∷ ys))

pub Perm-rev_append {ℓ} :
    {A : Type ℓ} (xs : List A) {ys zs : List A}
    → Perm ys zs
    → Perm (rev_append xs ys) (rev_append xs zs)
Perm-rev_append [] p = p
Perm-rev_append (x ∷ xs) p = Perm-rev_append xs (Perm.cons x p)

pub Named-rev_append :
    (heap : List DsPoint) (front back : List (Option ℕ)) (before after : List (List ℕ))
    → Named heap front before
    → Named heap back after
    → Named heap (rev_append front back) (rev_append before after)
Named-rev_append heap [] back [] after h k = k
Named-rev_append heap [] back (n ∷ before) after h k = absurd h
Named-rev_append heap (c ∷ front) back [] after h k = absurd h
Named-rev_append heap (c ∷ front) back (n ∷ before) after h k =
    Named-rev_append heap front (c ∷ back) before (n ∷ after) h.1 (h.0, k)

-- The names before `x`, nearest first, ascend to it.
abbrev pub Rises : List (List ℕ) → List ℕ → Type 0
Rises [] x = Unit
Rises (r ∷ before) x = (less r x ≡ true) × Rises before r

pub IsAscending-rev_append :
    (before : List (List ℕ)) (x : List ℕ) (after : List (List ℕ))
    → Rises before x
    → IsAscending (x ∷ after)
    → IsAscending (rev_append before (x ∷ after))
IsAscending-rev_append [] x after h k = k
IsAscending-rev_append (r ∷ before) x after h k =
    IsAscending-rev_append before r (x ∷ after) h.1 (h.0, k)

-- The names are cut before `after`: those before it ascend, and their last is below its first.
abbrev pub Parted : List (List ℕ) → List (List ℕ) → Type 0
Parted [] after = IsAscending after
Parted (r ∷ before) after = Rises before r × IsAscending (r ∷ after)

swap_point-rev_append :
    (front : List (Option ℕ)) (a b : Option ℕ) (back : List (Option ℕ))
    → swap_point (rev_append front (a ∷ b ∷ back)) (suc (length front)) (length front)
      ≡ rev_append front (b ∷ a ∷ back)
unfolding swap_point
swap_point-rev_append front a b back =
    let one : suc (length front) ≡ length front + 1 = omega arith in
    let none_more : length front ≡ length front + 0 = omega arith in
    let cells = rev_append front (a ∷ b ∷ back) in
    let first : get_or cells (length front) none ≡ a =
      ap (λ i. get_or cells i none) none_more ∙ get_or-rev_append front (a ∷ b ∷ back) 0 none in
    let second : get_or cells (suc (length front)) none ≡ b =
      ap (λ i. get_or cells i none) one ∙ get_or-rev_append front (a ∷ b ∷ back) 1 none in
    let stored : set cells (suc (length front)) a ≡ rev_append front (a ∷ a ∷ back) =
      ap (λ i. set cells i a) one ∙ set-rev_append front (a ∷ b ∷ back) 1 a in
    let both : set (rev_append front (a ∷ a ∷ back)) (length front) b
        ≡ rev_append front (b ∷ a ∷ back) =
      ap (λ i. set (rev_append front (a ∷ a ∷ back)) i b) none_more
      ∙ set-rev_append front (a ∷ a ∷ back) 0 b in
    rw (first, second, stored) both

-- What has come of the loop: the point is at the index, and the names ascend.
pub record IsSunk (heap : List DsPoint) (new : Option ℕ) (cells : List (Option ℕ)) (i n : ℕ)
    (names all : List (List ℕ)) : Type 0 where
  pub width : length cells ≡ n
  pub at_index : get_elem? cells i ≡ some new
  pub named : Named heap cells names
  pub ascends : IsAscending names
  pub perm : Perm names all

name_at-rev_append :
    (heap : List DsPoint) (front : List (Option ℕ)) (c : Option ℕ) (back : List (Option ℕ))
    (k i : ℕ) (name : List ℕ)
    → i ≡ length front + k
    → get_elem? back k ≡ some c
    → name_of heap c ≡ done name
    → name_at heap (rev_append front back) i ≡ done name
name_at-rev_append heap front c back k i name at e n =
    rw (at, get_elem?-rev_append front back k, e, n) refl

Parted-shift :
    (before : List (List ℕ)) (r : List ℕ) (after : List (List ℕ))
    → Rises before r
    → IsAscending (r ∷ after)
    → Parted before (r ∷ after)
Parted-shift [] r after h k = k
Parted-shift (s ∷ before) r after h k = (h.1, (h.0, k))

pub sink_lem :
    (heap : List DsPoint) (new : Option ℕ) (name : List ℕ) (front back : List (Option ℕ))
    (before after : List (List ℕ))
    → name_of heap new ≡ done name
    → Named heap front before
    → Named heap back after
    → Parted before after
    → IsAscending (name ∷ after)
    → All (λ r. r ≢ name) before
    → (cells : List (Option ℕ)) × (i : ℕ) × (names : List (List ℕ)) × (sink heap
          (length front)
          (rev_append front (new ∷ back))
        ≡ done (cells, i))
      × IsSunk heap new cells i
          (length front + suc (length back))
          names
          (rev_append before (name ∷ after))
unfolding sink
sink_lem heap new name [] back [] after n h k p a d = (
  new ∷ back,
  0,
  name ∷ after,
  refl,
  record { width = omega arith; at_index = refl; named = (n, k); ascends = a; perm = Perm.rfl },
)
sink_lem heap new name [] back (r ∷ before) after n h k p a d = absurd h
sink_lem heap new name (c ∷ front) back [] after n h k p a d = absurd h
sink_lem heap new name (c ∷ front) back (r ∷ before) after n h k p a d =
    let last =
      name_at-rev_append heap front new (c ∷ new ∷ back) 1 (suc (length front)) name (omega arith)
        refl n in
    let previous =
      name_at-rev_append heap front c (c ∷ new ∷ back) 0 (length front) r (omega arith) refl h.0 in
    elim (Bool-cases (less name r)) [
      | inl lower ↦
          let (cells, i, names, run, s) =
            sink_lem heap new name front (c ∷ back) before (r ∷ after) n h.1 (h.0, k)
              (Parted-shift before r after p.0 p.1) (lower, p.1) d.1 in
          (
            cells,
            i,
            names,
            rw (last, previous, lower, swap_point-rev_append front c new back) run,
            record {
              width = omega (arith, s.width);
              at_index = s.at_index;
              named = s.named;
              ascends = s.ascends;
              perm = Perm.trans s.perm (Perm-rev_append before (Perm.swap r name after));
            },
          )
      | inr higher ↦ elim (less_total name r higher) [
        | inr equal ↦ absurd (d.0 (sym equal))
        | inl rises ↦ (
          rev_append front (c ∷ new ∷ back),
          suc (length front),
          rev_append before (r ∷ name ∷ after),
          rw (last, previous, higher) refl,
          record {
            width = omega (arith, length-rev_append front (c ∷ new ∷ back));
            at_index =
                ap (λ k. get_elem? (rev_append front (c ∷ new ∷ back)) k) (omega arith)
                ∙ get_elem?-rev_append front (c ∷ new ∷ back) 1;
            named =
                Named-rev_append heap front (c ∷ new ∷ back) before (r ∷ name ∷ after) h.1
                  (h.0, (n, k));
            ascends = IsAscending-rev_append before r (name ∷ after) p.0 (rises, a);
            perm = Perm.rfl;
          },
        )
      ]
    ]
