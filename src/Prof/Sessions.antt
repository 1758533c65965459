-- ===== src/Prof/Sessions.antt =====
-- What a probe of prof/prfm.c adds up over a number of starts and stops.
use bsl45_misc_tools.Prelude.{
  ℕ, zero, suc, ◌+◌, ◌*◌, ◌≡◌, refl, sym, ◌∙◌, ap, List, [], ◌∷◌, true, ℤ, pos, pos_part, neg_part,
  sub_ℕ, ◌+ℤ◌, ◌-ℤ◌, int_laws, get_or, get_or-replicate, some, Exec, done, ◌>>=◌,
}
use bsl45_misc_tools.Prof.Usage.{
  Timespec, Timeval, Rusage, TimeOps, rusage_clear, rusage_sub, rusage_add,
}
use bsl45_misc_tools.Prof.Probe.{
  Metrics, Prfm, prfm_time, prfm_rusage, Sample, has, reset, prfm_xinit, prfm_start, prfm_stop,
}

-- The time in nanoseconds, or in microseconds.
abbrev pub scaled : ℕ → ℤ → ℤ → ℤ
scaled unit sec part =
    sub_ℕ (pos_part sec * unit + pos_part part) (neg_part sec * unit + neg_part part)

abbrev pub nanos : Timespec → ℤ
nanos t = scaled 1000000000 t.tv_sec t.tv_nsec

abbrev pub micros : Timeval → ℤ
micros t = scaled 1000000 t.tv_sec t.tv_usec

-- What the header says of its operations: they add and subtract times.
pub record IsExact (ops : TimeOps) : Type 0 where
  pub add_nanos : (a b : Timespec) → nanos (ops.timespecadd a b) ≡ nanos a +ℤ nanos b
  pub sub_nanos : (a b : Timespec) → nanos (ops.timespecsub a b) ≡ nanos a -ℤ nanos b
  pub add_micros : (a b : Timeval) → micros (ops.timeradd a b) ≡ micros a +ℤ micros b
  pub sub_micros : (a b : Timeval) → micros (ops.timersub a b) ≡ micros a -ℤ micros b

-- All that is counted, in the order of the struct.
abbrev pub counters : Rusage → List ℤ
counters u =
    micros u.ru_utime
    ∷ micros u.ru_stime
    ∷ u.ru_maxrss
    ∷ u.ru_ixrss
    ∷ u.ru_idrss
    ∷ u.ru_isrss
    ∷ u.ru_minflt
    ∷ u.ru_majflt
    ∷ u.ru_nswap
    ∷ u.ru_inblock
    ∷ u.ru_oublock
    ∷ u.ru_msgsnd
    ∷ u.ru_msgrcv
    ∷ u.ru_nsignals
    ∷ u.ru_nvcsw
    ∷ u.ru_nivcsw
    ∷ []

-- The `k`th counter.
abbrev pub counter : ℕ → Rusage → ℤ
counter k u = get_or (counters u) k (pos 0)

abbrev pointwise : (ℤ → ℤ → ℤ) → List ℤ → List ℤ → List ℤ
pointwise f [] ys = []
pointwise f (x ∷ xs) [] = []
pointwise f (x ∷ xs) (y ∷ ys) = f x y ∷ pointwise f xs ys

counters-rusage_add :
    (ops : TimeOps) (a b : Rusage)
    → IsExact ops
    → counters (rusage_add ops a b) ≡ pointwise ◌+ℤ◌ (counters a) (counters b)
unfolding rusage_add
counters-rusage_add ops a b h =
    rw (h.add_micros a.ru_utime b.ru_utime, h.add_micros a.ru_stime b.ru_stime) refl

counters-rusage_sub :
    (ops : TimeOps) (a b : Rusage)
    → IsExact ops
    → counters (rusage_sub ops a b) ≡ pointwise ◌-ℤ◌ (counters a) (counters b)
unfolding rusage_sub
counters-rusage_sub ops a b h =
    rw (h.sub_micros a.ru_utime b.ru_utime, h.sub_micros a.ru_stime b.ru_stime) refl

-- Lists of one length.
abbrev Match : List ℤ → List ℤ → Type 0
Match [] [] = Unit
Match [] (y ∷ ys) = ⊥
Match (x ∷ xs) [] = ⊥
Match (x ∷ xs) (y ∷ ys) = Match xs ys

get_or-pointwise :
    (f : ℤ → ℤ → ℤ) (xs ys : List ℤ) (k : ℕ)
    → f (pos 0) (pos 0) ≡ pos 0
    → Match xs ys
    → get_or (pointwise f xs ys) k (pos 0) ≡ f (get_or xs k (pos 0)) (get_or ys k (pos 0))
get_or-pointwise f [] [] k e h = sym e
get_or-pointwise f [] (y ∷ ys) k e h = absurd h
get_or-pointwise f (x ∷ xs) [] k e h = absurd h
get_or-pointwise f (x ∷ xs) (y ∷ ys) zero e h = refl
get_or-pointwise f (x ∷ xs) (y ∷ ys) (suc k) e h = get_or-pointwise f xs ys k e h

counter-rusage_add :
    (ops : TimeOps) (a b : Rusage) (k : ℕ)
    → IsExact ops
    → counter k (rusage_add ops a b) ≡ counter k a +ℤ counter k b
counter-rusage_add ops a b k h =
    ap (λ l. get_or l k (pos 0)) (counters-rusage_add ops a b h)
    ∙ get_or-pointwise ◌+ℤ◌ (counters a) (counters b) k (omega int_laws) tt

counter-rusage_sub :
    (ops : TimeOps) (a b : Rusage) (k : ℕ)
    → IsExact ops
    → counter k (rusage_sub ops a b) ≡ counter k a -ℤ counter k b
counter-rusage_sub ops a b k h =
    ap (λ l. get_or l k (pos 0)) (counters-rusage_sub ops a b h)
    ∙ get_or-pointwise ◌-ℤ◌ (counters a) (counters b) k (omega int_laws) tt

counter-rusage_clear : (k : ℕ) → counter k rusage_clear ≡ pos 0
counter-rusage_clear k = get_or-replicate 16 k (pos 0)

-- A start and a stop, with what the clock and the usage are at both.
pub record Session : Type 0 where
  pub begun : Metrics
  pub ended : Metrics

abbrev pub served : Metrics → Sample
served t = record { clock = some t.tm; usage = some t.ru }

abbrev pub run_session : TimeOps → Metrics → Session → Prfm → Exec Prfm
run_session ops junk s r = do
  r' ← prfm_start r (served s.begun)
  prfm_stop ops junk r' (served s.ended)

abbrev pub run_sessions : TimeOps → Metrics → List Session → Prfm → Exec Prfm
run_sessions ops junk [] r = done r
run_sessions ops junk (s ∷ sessions) r = run_session ops junk s r >>= run_sessions ops junk sessions

-- The sum of the differences between the ends and the beginnings.
abbrev pub spent : (Metrics → ℤ) → List Session → ℤ
spent f [] = pos 0
spent f (s ∷ sessions) = (f s.ended -ℤ f s.begun) +ℤ spent f sessions

-- A probe that measures all, with what it has added up so far.
abbrev Holds : (Metrics → ℤ) → List Session → Metrics → Metrics → Type 0
Holds f sessions before after = f after ≡ f before +ℤ spent f sessions

shuffle : (d before rest : ℤ) → d +ℤ before +ℤ rest ≡ before +ℤ (d +ℤ rest)
shuffle d before rest = omega int_laws

-- A sum after one session more.
gathered :
    (after now before difference difference' rest : ℤ)
    → after ≡ now +ℤ rest
    → now ≡ difference +ℤ before
    → difference ≡ difference'
    → after ≡ before +ℤ (difference' +ℤ rest)
gathered after now before difference difference' rest e f g =
    e ∙ ap (λ x. x +ℤ rest) (f ∙ ap (λ x. x +ℤ before) g) ∙ shuffle difference' before rest

plus_none : (a : ℤ) → a ≡ a +ℤ pos 0
plus_none a = omega int_laws

none_plus : (a : ℤ) → pos 0 +ℤ a ≡ a
none_plus a = omega int_laws

-- A probe after one session more.
abbrev after_session : TimeOps → Session → Prfm → Prfm
after_session ops s r = record r {
  start = s.begun;
  accum = record {
    tm = ops.timespecadd (ops.timespecsub s.ended.tm s.begun.tm) r.accum.tm;
    ru = rusage_add ops (rusage_sub ops s.ended.ru s.begun.ru) r.accum.ru;
  };
}

prfm_start-served :
    (r : Prfm) (t : Metrics)
    → has r.flags prfm_time ≡ true
    → has r.flags prfm_rusage ≡ true
    → prfm_start r (served t) ≡ done (record r { start = t })
unfolding prfm_start
prfm_start-served r t timed used = rw (timed, used) refl

prfm_stop-served :
    (ops : TimeOps) (junk : Metrics) (s : Session) (r : Prfm)
    → has r.flags prfm_time ≡ true
    → has r.flags prfm_rusage ≡ true
    → prfm_stop ops junk (record r { start = s.begun }) (served s.ended)
      ≡ done (after_session ops s r)
unfolding prfm_stop
prfm_stop-served ops junk s r timed used = rw (timed, used) refl

run_sessions-Holds :
    (ops : TimeOps) (junk : Metrics) (sessions : List Session) (r : Prfm)
    → IsExact ops
    → has r.flags prfm_time ≡ true
    → has r.flags prfm_rusage ≡ true
    → (r' : Prfm) × (run_sessions ops junk sessions r ≡ done r')
      × Holds (λ t. nanos t.tm) sessions r.accum r'.accum
      × ((k : ℕ) → Holds (λ t. counter k t.ru) sessions r.accum r'.accum)
run_sessions-Holds ops junk [] r h timed used =
    (r, refl, plus_none (nanos r.accum.tm), λ k. plus_none (counter k r.accum.ru))
run_sessions-Holds ops junk (s ∷ sessions) r h timed used =
    let next = after_session ops s r in
    let (r', runs, times, counts) = run_sessions-Holds ops junk sessions next h timed used in
    let difference = ops.timespecsub s.ended.tm s.begun.tm in
    let counted = rusage_sub ops s.ended.ru s.begun.ru in
    (
      r',
      rw (prfm_start-served r s.begun timed used, prfm_stop-served ops junk s r timed used) runs,
      gathered (nanos r'.accum.tm) (nanos next.accum.tm) (nanos r.accum.tm) (nanos difference)
          (nanos s.ended.tm -ℤ nanos s.begun.tm) (spent (λ t. nanos t.tm) sessions) times
          (h.add_nanos difference r.accum.tm) (h.sub_nanos s.ended.tm s.begun.tm),
      λ k.
          gathered (counter k r'.accum.ru) (counter k next.accum.ru) (counter k r.accum.ru)
            (counter k counted) (counter k s.ended.ru -ℤ counter k s.begun.ru)
            (spent (λ t. counter k t.ru) sessions) (counts k)
            (counter-rusage_add ops counted r.accum.ru k h)
            (counter-rusage_sub ops s.ended.ru s.begun.ru k h),
    )

-- Where the operations on times are exact and the clock and the usage can be read, a probe that has
-- been initialised for both adds up, over any number of starts and stops, the time between each start
-- and its stop, and the difference of each counter.
pub prfm_xinit-sessions :
    (ops : TimeOps) (junk : Metrics) (sessions : List Session) (r : Prfm) (who : ℤ)
    → IsExact ops
    → (r' : Prfm) × (run_sessions ops junk sessions (prfm_xinit r 3 who) ≡ done r')
      × (nanos r'.accum.tm ≡ spent (λ t. nanos t.tm) sessions)
      × ((k : ℕ) → counter k r'.accum.ru ≡ spent (λ t. counter k t.ru) sessions)
unfolding prfm_xinit reset
prfm_xinit-sessions ops junk sessions r who h =
    let (r', runs, times, counts) =
      run_sessions-Holds ops junk sessions (prfm_xinit r 3 who) h refl refl in
    (
      r',
      runs,
      times ∙ none_plus (spent (λ t. nanos t.tm) sessions),
      λ k.
          counts k
          ∙ ap (λ x. x +ℤ spent (λ t. counter k t.ru) sessions) (counter-rusage_clear k)
          ∙ none_plus (spent (λ t. counter k t.ru) sessions),
    )
