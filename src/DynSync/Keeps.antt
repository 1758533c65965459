-- ===== src/DynSync/Keeps.antt =====
-- The last signal of debugsync/debugsync_dyn.c, which only `ds_signal` changes.
use bsl45_misc_tools.Prelude.{
  ℕ, ◌≡◌, refl, sym, subst, ◌⊎◌, inl, inr, List, Bool, true, false, ◌==◌, ltb, if◌then◌else◌,
  Option, none, some, Exec, done, abort, fault, ◌>>=◌, access, length, get_elem?, ℤ, pos,
  Option-cases, Bool-cases,
}
use bsl45_misc_tools.DynSync.Points.{
  DsGlobal, Bsearch, Pointer, null, to_point, to_cell, as_pointer, expand, add_to_cells, add_point,
  ds_add, ds_lookup, write_point,
}
use bsl45_misc_tools.DynSync.Calls.{
  Section, returns, wait_on, leave, waiting, set_enabled, acquire, set_point, ds_set,
}

-- What holds of the value that a run gives, if it gives one.
abbrev pub Gives : {A : Type 0} → (A → Type 0) → Exec A → Type 0
Gives P (done a) = P a
Gives P abort = Unit
Gives P fault = Unit

-- Whether a run gives a value, and which.
Exec-cases : {A : Type 0} (m : Exec A) → ((a : A) × (m ≡ done a)) ⊎ ((m ≡ abort) ⊎ (m ≡ fault))
Exec-cases (done a) = inl (a, refl)
Exec-cases abort = inr (inl refl)
Exec-cases fault = inr (inr refl)

pub Gives-done : {A : Type 0} (P : A → Type 0) (m : Exec A) (a : A) → Gives P m → m ≡ done a → P a
Gives-done P m a h e = subst (λ o. Gives P o) e h

-- A state with the signal of another.
abbrev pub Keeps : DsGlobal → DsGlobal → Type 0
Keeps ds ds' = ds'.signal ≡ ds.signal

abbrev KeepsWith : {A : Type 0} → DsGlobal → DsGlobal × A → Type 0
KeepsWith ds r = Keeps ds r.0

add_to_cells-Keeps :
    (served : Bool) (name : List ℕ) (ds : DsGlobal) (cells : List (Option ℕ))
    → Gives (KeepsWith ds) (add_to_cells served name ds cells)
unfolding add_to_cells write_point
add_to_cells-Keeps served name ds cells = elim (Bool-cases (length cells == ds.count)) [
  | inl e ↦ elim (Bool-cases served) [
    | inl memory ↦ rw (e, memory) tt
    | inr no_memory ↦ rw (e, no_memory) refl
  ]
  | inr e ↦ rw (e) tt
]

add_point-Keeps :
    (served : Bool) (name : List ℕ) (ds : DsGlobal)
    → Gives (KeepsWith ds) (add_point served name ds)
unfolding add_point
add_point-Keeps served name ds = elim (Option-cases ds.point) [
  | inl no_array ↦ rw (no_array) tt
  | inr (cells, array) ↦
      subst (λ o. Gives (KeepsWith ds) (access o >>= add_to_cells served name ds)) (sym array)
        (add_to_cells-Keeps served name ds cells)
]

ds_add-Keeps :
    (grows served : Bool) (name : List ℕ) (ds : DsGlobal)
    → Gives (KeepsWith ds) (ds_add grows served name ds)
unfolding ds_add expand
ds_add-Keeps true served name ds = elim (Bool-cases (ltb ds.count ds.capacity)) [
  | inl room_left ↦ rw (room_left) (add_point-Keeps served name ds)
  | inr full ↦ rw (full) (add_point-Keeps served name (expand true ds))
]
ds_add-Keeps false served name ds = elim (Bool-cases (ltb ds.count ds.capacity)) [
  | inl room_left ↦ rw (room_left) (add_point-Keeps served name ds)
  | inr full ↦ rw (full) refl
]

-- What runs after a state with the same signal.
Gives-after :
    {A B : Type 0} (P : A → Type 0) (Q : B → Type 0) (m : Exec A) (f : A → Exec B)
    → Gives P m
    → ((a : A) → P a → Gives Q (f a))
    → Gives Q (m >>= f)
Gives-after P Q (done a) f h k = k a h
Gives-after P Q abort f h k = tt
Gives-after P Q fault f h k = tt

acquire-Keeps :
    (bsearch : Bsearch) (grows served : Bool) (name : List ℕ) (ds : DsGlobal)
    → Gives (KeepsWith ds) (acquire bsearch grows served name ds)
unfolding acquire
acquire-Keeps bsearch grows served name ds =
    let added : Gives (KeepsWith ds)
        (ds_add grows served name ds >>= λ (grown, p). done (grown, as_pointer p)) =
      Gives-after (KeepsWith ds) (KeepsWith ds) (ds_add grows served name ds)
        (λ (grown, p). done (grown, as_pointer p)) (ds_add-Keeps grows served name ds) (λ r k. k) in
    elim (Exec-cases (ds_lookup bsearch name ds)) [
      | inl (null, e) ↦ rw (e) added
      | inl (to_point p, e) ↦ rw (e) refl
      | inl (to_cell i, e) ↦ rw (e) refl
      | inr (inl e) ↦ rw (e) tt
      | inr (inr e) ↦ rw (e) tt
    ]

set_enabled-Keeps :
    (b : Bool) (pt : Pointer) (ds : DsGlobal) → Gives (Keeps ds) (set_enabled b pt ds)
unfolding set_enabled
set_enabled-Keeps b null ds = tt
set_enabled-Keeps b (to_cell i) ds = tt
set_enabled-Keeps b (to_point p) ds = elim (Option-cases (get_elem? ds.heap p)) [
  | inl out ↦ rw (out) tt
  | inr (pt, e) ↦ rw (e) refl
]

-- A section that leaves the signal.
abbrev pub KeepsSection : DsGlobal → Section → Type 0
KeepsSection ds s = Keeps ds s.state

leave-Keeps :
    (pt : Option Pointer) (rc : ℤ) (ds : DsGlobal) → Gives (KeepsSection ds) (leave pt rc ds)
unfolding leave
leave-Keeps none rc ds = refl
leave-Keeps (some pt) rc ds =
    Gives-after (Keeps ds) (KeepsSection ds) (set_enabled false pt ds)
      (λ ds'. done (record { state = ds'; reply = returns rc })) (set_enabled-Keeps false pt ds)
      (λ d k. k)

pub waiting-Keeps :
    (name : List ℕ) (pt : Option Pointer) (ds : DsGlobal)
    → Gives (KeepsSection ds) (waiting name pt ds)
unfolding waiting
waiting-Keeps name pt ds = elim (Exec-cases (wait_on name pt ds)) [
  | inl (none, e) ↦ rw (e) refl
  | inl (some rc, e) ↦ rw (e) (leave-Keeps pt rc ds)
  | inr (inl e) ↦ rw (e) tt
  | inr (inr e) ↦ rw (e) tt
]

-- The end of `ds_set` for a point that is no null pointer.
abbrev flagged : List ℕ → Bool → Pointer → DsGlobal → Exec Section
flagged name enable pt ds =
    if enable
    then waiting name (some pt) ds
    else done (record { state = ds; reply = returns (pos 0) })

flagged-Keeps :
    (name : List ℕ) (enable : Bool) (pt : Pointer) (ds ds' : DsGlobal)
    → Keeps ds ds'
    → Gives (KeepsSection ds) (flagged name enable pt ds')
flagged-Keeps name false pt ds ds' k = k
flagged-Keeps name true pt ds ds' k =
    subst (λ g. Gives (λ s. s.state.signal ≡ g) (waiting name (some pt) ds')) k
      (waiting-Keeps name (some pt) ds')

set_point-Keeps :
    (name : List ℕ) (enable : Bool) (pt : Pointer) (ds : DsGlobal)
    → Gives (KeepsSection ds) (set_point name enable pt ds)
unfolding set_point
set_point-Keeps name enable null ds = refl
set_point-Keeps name enable (to_point p) ds =
    Gives-after (Keeps ds) (KeepsSection ds) (set_enabled enable (to_point p) ds)
      (flagged name enable (to_point p)) (set_enabled-Keeps enable (to_point p) ds)
      (flagged-Keeps name enable (to_point p) ds)
set_point-Keeps name enable (to_cell i) ds =
    Gives-after (Keeps ds) (KeepsSection ds) (set_enabled enable (to_cell i) ds)
      (flagged name enable (to_cell i)) (set_enabled-Keeps enable (to_cell i) ds)
      (flagged-Keeps name enable (to_cell i) ds)

pub ds_set-Keeps :
    (bsearch : Bsearch) (grows served : Bool) (name : List ℕ) (enable : Bool) (ds : DsGlobal)
    → Gives (KeepsSection ds) (ds_set bsearch grows served name enable ds)
unfolding ds_set
ds_set-Keeps bsearch grows served name enable ds =
    Gives-after (KeepsWith ds) (KeepsSection ds) (acquire bsearch grows served name ds)
      (λ (got, pt). set_point name enable pt got) (acquire-Keeps bsearch grows served name ds)
      (λ (got, pt) k.
        subst (λ g. Gives (λ s. s.state.signal ≡ g) (set_point name enable pt got)) k
          (set_point-Keeps name enable pt got))
