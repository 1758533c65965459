-- ===== src/DynSync/Tests.antt =====
-- Tests of the model of debugsync/debugsync_dyn.c.
use bsl45_misc_tools.Prelude.{
  ℕ, suc, ◌≡◌, ◌≢◌, ◌⊎◌, inl, refl, sym, ap, List, [], ◌∷◌, true, false, if◌then◌else◌, ◌==◌,
  replicate, Option, none, some, done, fault, ◌>>=◌, pos, negsuc, arith,
}
use bsl45_misc_tools.DynSync.Points.{
  DsGlobal, Bsearch, static_ds, ds_init, ds_add, ds_lookup, elements, expand, add_point,
  add_to_cells, write_point,
}
use bsl45_misc_tools.DynSync.Calls.{returns, ds_set, ds_signal, acquire, set_point}
use bsl45_misc_tools.DynSync.Lookup.{IsBsearch, ds_set_never}
use bsl45_misc_tools.DynSync.Threads.{
  System, system, outside, asleep, ready, ran, signals, Steps, stays, then_step,
}
use bsl45_misc_tools.DynSync.Runs.{WaitsFor, Steps-WaitsFor}
use bsl45_misc_tools.DynSync.Waits.{start, Steps-lost}

-- An array with the point "b".
abbrev one_point : DsGlobal
one_point = record {
  signal = [];
  point = some (some 0 ∷ []);
  capacity = 8;
  count = 1;
  heap = record { name = 98 ∷ []; is_enabled = false } ∷ [];
}

abbrev first_byte : List ℕ → ℕ
first_byte [] = 0
first_byte (x ∷ name) = x

b-ne-a : ◌≢◌ {A = List ℕ} (98 ∷ []) (97 ∷ [])
b-ne-a e = let h = ap (λ name. first_byte name) e in omega (arith, h)

abbrev next : Option ℕ → Option ℕ
next none = none
next (some i) = some (suc i)

-- A search that compares from the first element on.
unfoldable search_from_start : Bsearch
search_from_start compare k [] = done none
search_from_start compare k (e ∷ array) = do
  c ← compare k e
  i ← search_from_start compare k array
  done (elim c [ pos n ↦ if n == 0 then some 0 else next i | negsuc n ↦ next i ])

search_from_start-IsBsearch : IsBsearch search_from_start
unfolding search_from_start
search_from_start-IsBsearch = record {
  empty = λ compare k. refl;
  compares = λ compare k e array h. rw (h e) refl;
}

ds_set_never_example :
    ((ds_set search_from_start true true (97 ∷ []) true (ds_init static_ds) ≡ fault)
      ⊎ ((after : DsGlobal) × (ds_set search_from_start true true (97 ∷ []) true (ds_init static_ds)
            ≡ done (record { state = after; reply = returns (negsuc 0) }))))
    × ((ds_init static_ds).count ≢ 0
        → ds_set search_from_start true true (97 ∷ []) true (ds_init static_ds) ≡ fault)
ds_set_never_example =
    ds_set_never search_from_start true true (97 ∷ []) true (ds_init static_ds)
      search_from_start-IsBsearch

-- With memory, the first call writes past the block; without it, there is no point.
first_sets :
    (ds_set search_from_start true true (97 ∷ []) true (ds_init static_ds) ≡ fault)
    × ((after : DsGlobal) × (ds_set search_from_start true false (97 ∷ []) true (ds_init static_ds)
          ≡ done (record { state = after; reply = returns (negsuc 0) })))
unfolding ds_init ds_set acquire ds_lookup elements search_from_start ds_add expand add_point
    add_to_cells write_point set_point
first_sets = (refl, (_, refl))

Steps-lost_example :
    (s : System) × Steps search_from_start start s
    × (s.ds.signal ≡ 97 ∷ [])
    × (s.threads ≡ asleep (97 ∷ []) none ∷ asleep (98 ∷ []) none ∷ outside ∷ [])
Steps-lost_example =
    Steps-lost search_from_start (97 ∷ []) (98 ∷ []) (λ e. cc e) (λ e. cc e) (λ e. b-ne-a (sym e))
      (omega arith)

abbrev long_name : List ℕ
long_name = replicate 33 97

abbrev one_waits : System
one_waits = system (ds_init static_ds) (asleep long_name none ∷ outside ∷ [])

abbrev one_told : System
one_told = ran 1 (ds_signal long_name (ds_init static_ds)) (ready long_name none ∷ outside ∷ [])

Steps-WaitsFor_example : WaitsFor long_name one_told.threads 0
unfolding ds_init
Steps-WaitsFor_example =
    Steps-WaitsFor search_from_start long_name 0 one_waits one_told (omega arith) (omega arith)
      (inl refl)
      (then_step one_waits one_waits one_told (stays one_waits)
        (signals (ds_init static_ds) one_waits.threads 1 0 long_name long_name none refl refl))
