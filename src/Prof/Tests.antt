-- ===== src/Prof/Tests.antt =====
-- The model of prof/prfm.c at concrete inputs, with the operations on times as they are documented.
use bsl45_misc_tools.Prelude.{
  ℕ, ◌+◌, ◌*◌, ◌≡◌, refl, List, [], ◌∷◌, ◌∙◌, ap, ltb_ℤ, leb_ℤ, if◌then◌else◌, ℤ, pos, pos_part,
  neg_part, sub_ℕ, ◌+ℤ◌, ◌-ℤ◌, +ℤ_parts, -ℤ_parts, eq_of_parts, arith, Bool-cases, inl, inr, done,
}
use bsl45_misc_tools.Prof.Usage.{Timespec, Timeval, TimeOps, rusage_clear}
use bsl45_misc_tools.Prof.Probe.{Metrics, Prfm, prfm_xinit}
use bsl45_misc_tools.Prof.Sessions.{
  scaled, nanos, counter, IsExact, Session, run_sessions, spent, prfm_xinit-sessions,
}

sub_ℕ_parts : (a b : ℕ) → pos_part (sub_ℕ a b) + b ≡ neg_part (sub_ℕ a b) + a
sub_ℕ_parts a b = ground arith

-- Equal differences.
sub_ℕ_eq : (a b c d : ℕ) → a + d ≡ c + b → sub_ℕ a b ≡ sub_ℕ c d
sub_ℕ_eq a b c d h =
    eq_of_parts (sub_ℕ a b) (sub_ℕ c d) (omega (arith, sub_ℕ_parts a b, sub_ℕ_parts c d))

sum_of_differences : (a b c d : ℕ) → sub_ℕ (a + c) (b + d) ≡ sub_ℕ a b +ℤ sub_ℕ c d
sum_of_differences a b c d = eq_of_parts (sub_ℕ (a + c) (b + d)) (sub_ℕ a b +ℤ sub_ℕ c d) (
    omega (
      arith,
      sub_ℕ_parts (a + c) (b + d),
      sub_ℕ_parts a b,
      sub_ℕ_parts c d,
      +ℤ_parts (sub_ℕ a b) (sub_ℕ c d),
    ))

difference_of_differences : (a b c d : ℕ) → sub_ℕ (a + d) (b + c) ≡ sub_ℕ a b -ℤ sub_ℕ c d
difference_of_differences a b c d = eq_of_parts (sub_ℕ (a + d) (b + c)) (sub_ℕ a b -ℤ sub_ℕ c d) (
    omega (
      arith,
      sub_ℕ_parts (a + d) (b + c),
      sub_ℕ_parts a b,
      sub_ℕ_parts c d,
      -ℤ_parts (sub_ℕ a b) (sub_ℕ c d),
    ))

abbrev carry : ℕ → ℤ → ℤ → ℤ × ℤ
carry unit sec part =
    if leb_ℤ (pos unit) part then (sec +ℤ pos 1, part -ℤ pos unit) else (sec, part)

abbrev borrow : ℕ → ℤ → ℤ → ℤ × ℤ
borrow unit sec part = if ltb_ℤ part (pos 0) then (sec -ℤ pos 1, part +ℤ pos unit) else (sec, part)

scaled-carry :
    (unit : ℕ) (sec part : ℤ)
    → scaled unit (carry unit sec part).0 (carry unit sec part).1 ≡ scaled unit sec part
scaled-carry unit sec part = elim (Bool-cases (leb_ℤ (pos unit) part)) [
  | inl full ↦ rw (full) (
      sub_ℕ_eq (pos_part (sec +ℤ pos 1) * unit + pos_part (part -ℤ pos unit))
        (neg_part (sec +ℤ pos 1) * unit + neg_part (part -ℤ pos unit))
        (pos_part sec * unit + pos_part part) (neg_part sec * unit + neg_part part)
        (omega (arith, ap (λ (t : ℕ). t * unit) (+ℤ_parts sec (pos 1)), -ℤ_parts part (pos unit))))
  | inr small ↦ rw (small) refl
]

scaled-borrow :
    (unit : ℕ) (sec part : ℤ)
    → scaled unit (borrow unit sec part).0 (borrow unit sec part).1 ≡ scaled unit sec part
scaled-borrow unit sec part = elim (Bool-cases (ltb_ℤ part (pos 0))) [
  | inl less ↦ rw (less) (
      sub_ℕ_eq (pos_part (sec -ℤ pos 1) * unit + pos_part (part +ℤ pos unit))
        (neg_part (sec -ℤ pos 1) * unit + neg_part (part +ℤ pos unit))
        (pos_part sec * unit + pos_part part) (neg_part sec * unit + neg_part part)
        (omega (arith, ap (λ (t : ℕ). t * unit) (-ℤ_parts sec (pos 1)), +ℤ_parts part (pos unit))))
  | inr more ↦ rw (more) refl
]

scaled_add :
    (unit : ℕ) (a b c d : ℤ) → scaled unit (a +ℤ c) (b +ℤ d) ≡ scaled unit a b +ℤ scaled unit c d
scaled_add unit a b c d =
    sub_ℕ_eq (pos_part (a +ℤ c) * unit + pos_part (b +ℤ d))
      (neg_part (a +ℤ c) * unit + neg_part (b +ℤ d))
      (pos_part a * unit + pos_part b + (pos_part c * unit + pos_part d))
      (neg_part a * unit + neg_part b + (neg_part c * unit + neg_part d))
      (omega (arith, ap (λ (t : ℕ). t * unit) (+ℤ_parts a c), +ℤ_parts b d))
    ∙ sum_of_differences (pos_part a * unit + pos_part b) (neg_part a * unit + neg_part b)
        (pos_part c * unit + pos_part d) (neg_part c * unit + neg_part d)

scaled_sub :
    (unit : ℕ) (a b c d : ℤ) → scaled unit (a -ℤ c) (b -ℤ d) ≡ scaled unit a b -ℤ scaled unit c d
scaled_sub unit a b c d =
    sub_ℕ_eq (pos_part (a -ℤ c) * unit + pos_part (b -ℤ d))
      (neg_part (a -ℤ c) * unit + neg_part (b -ℤ d))
      (pos_part a * unit + pos_part b + (neg_part c * unit + neg_part d))
      (neg_part a * unit + neg_part b + (pos_part c * unit + pos_part d))
      (omega (arith, ap (λ (t : ℕ). t * unit) (-ℤ_parts a c), -ℤ_parts b d))
    ∙ difference_of_differences (pos_part a * unit + pos_part b) (neg_part a * unit + neg_part b)
        (pos_part c * unit + pos_part d) (neg_part c * unit + neg_part d)

abbrev as_timespec : ℤ × ℤ → Timespec
as_timespec t = record { tv_sec = t.0; tv_nsec = t.1 }

abbrev as_timeval : ℤ × ℤ → Timeval
as_timeval t = record { tv_sec = t.0; tv_usec = t.1 }

-- With a carry from the fraction to the seconds, and a borrow.
abbrev carrying : TimeOps
carrying = record {
  timespecadd =
      λ a b. as_timespec (carry 1000000000 (a.tv_sec +ℤ b.tv_sec) (a.tv_nsec +ℤ b.tv_nsec));
  timespecsub =
      λ a b. as_timespec (borrow 1000000000 (a.tv_sec -ℤ b.tv_sec) (a.tv_nsec -ℤ b.tv_nsec));
  timeradd = λ a b. as_timeval (carry 1000000 (a.tv_sec +ℤ b.tv_sec) (a.tv_usec +ℤ b.tv_usec));
  timersub = λ a b. as_timeval (borrow 1000000 (a.tv_sec -ℤ b.tv_sec) (a.tv_usec -ℤ b.tv_usec));
}

carrying-IsExact : IsExact carrying
carrying-IsExact = record {
  add_nanos = λ a b.
      scaled-carry 1000000000 (a.tv_sec +ℤ b.tv_sec) (a.tv_nsec +ℤ b.tv_nsec)
      ∙ scaled_add 1000000000 a.tv_sec a.tv_nsec b.tv_sec b.tv_nsec;
  sub_nanos = λ a b.
      scaled-borrow 1000000000 (a.tv_sec -ℤ b.tv_sec) (a.tv_nsec -ℤ b.tv_nsec)
      ∙ scaled_sub 1000000000 a.tv_sec a.tv_nsec b.tv_sec b.tv_nsec;
  add_micros = λ a b.
      scaled-carry 1000000 (a.tv_sec +ℤ b.tv_sec) (a.tv_usec +ℤ b.tv_usec)
      ∙ scaled_add 1000000 a.tv_sec a.tv_usec b.tv_sec b.tv_usec;
  sub_micros = λ a b.
      scaled-borrow 1000000 (a.tv_sec -ℤ b.tv_sec) (a.tv_usec -ℤ b.tv_usec)
      ∙ scaled_sub 1000000 a.tv_sec a.tv_usec b.tv_sec b.tv_usec;
}

abbrev at_time : ℕ → ℕ → Metrics
at_time sec nsec = record {
  tm = record { tv_sec = pos sec; tv_nsec = pos nsec };
  ru = record rusage_clear { ru_minflt = pos nsec };
}

-- From 1.9 s to 2.1 s, and from 5 s to 6 s.
abbrev two_sessions : List Session
two_sessions =
    record { begun = at_time 1 900000000; ended = at_time 2 100000000 }
    ∷ record { begun = at_time 5 0; ended = at_time 6 0 }
    ∷ []

abbrev blank : Prfm
blank = record { who = pos 0; flags = 0; start = at_time 0 7; accum = at_time 0 7 }

prfm_xinit-sessions_example :
    (r' : Prfm) × (run_sessions carrying (at_time 3 3) two_sessions (prfm_xinit blank 3 (pos 0))
      ≡ done r')
    × (nanos r'.accum.tm ≡ spent (λ t. nanos t.tm) two_sessions)
    × ((k : ℕ) → counter k r'.accum.ru ≡ spent (λ t. counter k t.ru) two_sessions)
prfm_xinit-sessions_example =
    prfm_xinit-sessions carrying (at_time 3 3) two_sessions blank (pos 0) carrying-IsExact
