-- ===== src/DynSync/Lookup.antt =====
-- `ds_lookup` of debugsync/debugsync_dyn.c, which compares its key as if it were a pointer to one, and
-- `ds_set` with it.
use bsl45_misc_tools.Prelude.{
  ℕ, suc, ◌++◌, ◌≡◌, ◌≢◌, ◌⊎◌, ltb, negsuc, inl, inr, refl, List, [], ◌∷◌, Bool, true, false, ◌==◌,
  arith, map, Option, none, some, Exec, done, fault, length, take, ℤ, Bool-cases, Option-cases,
}
use bsl45_misc_tools.DynSync.Points.{
  DsPoint, DsGlobal, Element, cell, key, Bsearch, null, ds_maxlen, name_in, expand, ds_add,
  add_point, add_to_cells, write_point, ds_cmp, elements, ds_lookup,
}
use bsl45_misc_tools.DynSync.Calls.{returns, acquire, set_point, ds_set}

-- What the manual says of `bsearch`: of an empty array it gives a null pointer, and in another one it
-- calls the comparison with the key and some element, so that it faults where each such call does.
pub record IsBsearch (bsearch : Bsearch) : Type 0 where
  pub empty :
      (compare : Element → Element → Exec ℤ) (k : Element) → bsearch compare k [] ≡ done none
  pub compares :
      (compare : Element → Element → Exec ℤ) (k e : Element) (array : List Element)
      → ((x : Element) → compare k x ≡ fault)
      → bsearch compare k (e ∷ array) ≡ fault

ds_cmp-key : (heap : List DsPoint) (name : List ℕ) (x : Element) → ds_cmp heap (key name) x ≡ fault
unfolding ds_cmp name_in
ds_cmp-key heap name x = refl

bsearch-cells :
    (bsearch : Bsearch) (name : List ℕ) (heap : List DsPoint) (cells : List (Option ℕ))
    → IsBsearch bsearch
    → length cells ≢ 0
    → bsearch (ds_cmp heap) (key name) (map cell cells) ≡ fault
bsearch-cells bsearch name heap [] b written = absurd (written refl)
bsearch-cells bsearch name heap (c ∷ cells) b written =
    b.compares (ds_cmp heap) (key name) (cell c) (map cell cells) (ds_cmp-key heap name)

-- Once there is a point, a lookup follows a pointer made of the bytes of a name.
ds_lookup-fault :
    (bsearch : Bsearch) (name : List ℕ) (ds : DsGlobal)
    → IsBsearch bsearch
    → ds.count ≢ 0
    → ds_lookup bsearch name ds ≡ fault
unfolding ds_lookup elements
ds_lookup-fault bsearch name ds b some_points =
    let points : (ds.count == 0) ≡ false = ground arith in
    elim (Option-cases ds.point) [
      | inl no_array ↦ rw (points, no_array) refl
      | inr (cells, array) ↦ elim (Bool-cases (length cells == ds.count)) [
        | inl full ↦
            let called =
              bsearch-cells bsearch (take ds_maxlen name) ds.heap cells b (ground (arith, full)) in
            rw (points, array, full, called) refl
        | inr short ↦ rw (points, array, short) refl
      ]
    ]

ds_lookup-null :
    (bsearch : Bsearch) (name : List ℕ) (ds : DsGlobal)
    → IsBsearch bsearch
    → ds.count ≡ 0
    → ds_lookup bsearch name ds ≡ done null
unfolding ds_lookup elements
ds_lookup-null bsearch name ds b no_points =
    let none_there : (ds.count == 0) ≡ true = ground arith in
    rw (none_there, b.empty (ds_cmp ds.heap) (key (take ds_maxlen name))) refl

-- No point comes of it: the run faults, or the result is a null pointer.
abbrev GivesNone : Exec (DsGlobal × Option ℕ) → Type 0
GivesNone m = (m ≡ fault) ⊎ ((after : DsGlobal) × (m ≡ done (after, none)))

add_point-GivesNone :
    (served : Bool) (name : List ℕ) (ds : DsGlobal) → GivesNone (add_point served name ds)
unfolding add_point add_to_cells write_point
add_point-GivesNone served name ds = elim (Option-cases ds.point) [
  | inl no_array ↦ inl (rw (no_array) refl)
  | inr (cells, array) ↦ elim (Bool-cases (length cells == ds.count)) [
    | inr short ↦ inl (rw (array, short) refl)
    | inl full ↦ elim (Bool-cases served) [
      | inl memory ↦ inl (rw (array, full, memory) refl)
      | inr no_memory ↦ inr (
        record ds { point = some (cells ++ (none ∷ [])); count = suc ds.count },
        rw (array, full, no_memory) refl,
      )
    ]
  ]
]

-- `ds_add` never adds a point: the block is too small for it.
ds_add-GivesNone :
    (grows served : Bool) (name : List ℕ) (ds : DsGlobal) → GivesNone (ds_add grows served name ds)
unfolding ds_add
ds_add-GivesNone grows served name ds = elim (Bool-cases (ltb ds.count ds.capacity)) [
  | inl room ↦ rw (room) (add_point-GivesNone served name ds)
  | inr full ↦ elim (Bool-cases grows) [
    | inl more ↦ rw (full, more) (add_point-GivesNone served name (expand true ds))
    | inr no_more ↦ inr (expand false ds, rw (full, no_more) refl)
  ]
]

-- Where `bsearch` behaves as its manual says, whatever the state is, the memory and the name,
-- `ds_set` never returns 0, nor does it come to sleep: it returns -1 or makes an invalid access.
-- Where there are points already, it makes one in any case.
pub ds_set_never :
    (bsearch : Bsearch) (grows served : Bool) (name : List ℕ) (enable : Bool) (ds : DsGlobal)
    → IsBsearch bsearch
    → ((ds_set bsearch grows served name enable ds ≡ fault)
        ⊎ ((after : DsGlobal) × (ds_set bsearch grows served name enable ds
              ≡ done (record { state = after; reply = returns (negsuc 0) }))))
      × (ds.count ≢ 0 → ds_set bsearch grows served name enable ds ≡ fault)
unfolding ds_set acquire set_point
ds_set_never bsearch grows served name enable ds b =
    let finds : ds.count ≢ 0 → ds_set bsearch grows served name enable ds ≡ fault =
      λ some_points. rw (ds_lookup-fault bsearch name ds b some_points) refl in
    (
      elim (Bool-cases (ds.count == 0)) [
        | inr some_points ↦ inl (finds (λ e. ground (arith, some_points)))
        | inl no_points ↦
            let nothing = ds_lookup-null bsearch name ds b (ground (arith, no_points)) in
            elim (ds_add-GivesNone grows served name ds) [
              | inl faults ↦ inl (rw (nothing, faults) refl)
              | inr (after, gives_none) ↦ inr (after, rw (nothing, gives_none) refl)
            ]
      ],
      finds,
    )
