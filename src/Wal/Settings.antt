-- ===== src/Wal/Settings.antt =====
-- The settings with which `main` of wal/wbuft.c runs its test are in range.
use bsl45_misc_tools.Prelude.{
  ℕ, ◌+◌, ◌*◌, ◌%◌, ◌≤◌, ◌<◌, ◌≡◌, refl, subst, List, [], ◌∷◌, Bool, true, false, ◌||◌, ◌==◌,
  Option, none, some, ltb, leb, if◌then◌else◌, ℤ, pos, ltb_ℤ, leb_ℤ, pos_part, get_elem?, arith,
  or-halves, Bool-cases, inl, inr, ◌≤ℤ◌,
}
use bsl45_misc_tools.Wal.Options.{
  TestSpec, cleared, Kind, mode, opening, increment, increments, chunks, invalid, kind, Effect,
  goes_on, stops, in_limits, apply_kind, and_then, read_opt, Checked, usage_exit, null_read,
  returns, runs, complete, check_niter, check_bufsz, check_operands, after_options, main_checks,
  min_bufsz, max_bufsz, min_incr, min_nincr, max_nincr, seq_write, sync_thread, sync_data, falloc,
  falloc_sz, o_trunc, o_append, o_direct, o_sync, o_dsync,
}

-- What holds of the settings while the options are read: a number that an option has set is in range,
-- and no option has set the flag of `fsync`.
pub record IsPartial (sp : TestSpec) : Type 0 where
  pub even : sp.mode_flags % 2 ≡ 0
  pub incr_low : 0 < sp.incr → min_incr ≤ sp.incr
  pub incr_high : sp.incr ≤ min_incr + max_nincr * min_bufsz
  pub nincr_high : sp.nincr ≤ max_nincr
  pub chunks_low : 0 < sp.num_chunks → 2 ≤ sp.num_chunks

-- What holds of the settings of a test that is run.
pub record IsSettled (sp : TestSpec) : Type 0 where
  pub len_low : min_bufsz ≤ sp.len
  pub len_high : sp.len ≤ max_bufsz
  pub niter_low : 0 < sp.niter
  pub incr_low : min_incr ≤ sp.incr
  pub incr_high : sp.incr ≤ min_incr + max_nincr * min_bufsz
  pub nincr_low : min_nincr ≤ sp.nincr
  pub nincr_high : sp.nincr ≤ max_nincr
  pub chunks_low : 0 < sp.num_chunks → 2 ≤ sp.num_chunks
  pub chunks_high : sp.num_chunks < sp.len
  pub even : sp.mode_flags % 2 ≡ 0

-- A mode flag that an option sets is even.
data IsEven : Kind → Type 0 where
  even_mode : (flag : ℕ) → flag % 2 ≡ 0 → IsEven (mode flag)
  any_opening : (flag : ℕ) → IsEven (opening flag)
  any_increment : IsEven increment
  any_increments : IsEven increments
  any_chunks : IsEven chunks
  any_invalid : IsEven invalid

if-IsEven : (b : Bool) (k l : Kind) → IsEven k → IsEven l → IsEven (if b then k else l)
if-IsEven true k l hk hl = hk
if-IsEven false k l hk hl = hl

kind-IsEven : (opt : ℕ) → IsEven (kind opt)
unfolding kind
kind-IsEven opt = if-IsEven (opt == b'Q') _ _ (even_mode seq_write refl) (
    if-IsEven (opt == b'T') _ _ (even_mode sync_thread refl) (
      if-IsEven (opt == b'F') _ _ (even_mode falloc refl) (
        if-IsEven (opt == b'k') _ _ (even_mode falloc_sz refl) (
          if-IsEven (opt == b't') _ _ (any_opening o_trunc) (
            if-IsEven (opt == b'a') _ _ (any_opening o_append) (
              if-IsEven (opt == b'i') _ _ (any_opening o_direct) (
                if-IsEven (opt == b's') _ _ (any_opening o_sync) (
                  if-IsEven (opt == b'f') _ _ (any_opening o_sync) (
                    if-IsEven (opt == b'd') _ _ (any_opening o_dsync) (
                      if-IsEven (opt == b'D') _ _ (even_mode sync_data refl) (
                        if-IsEven (opt == b'S') _ _ (even_mode sync_data refl) (
                          if-IsEven (opt == b'I') _ _ (any_increment) (
                            if-IsEven (opt == b'N') _ _ (any_increments)
                              (if-IsEven (opt == b'U') _ _ (any_chunks) (any_invalid)))))))))))))))

-- What an option makes of such settings.
abbrev AllPartial : Effect → Type 0
AllPartial (goes_on sp) = IsPartial sp
AllPartial (stops rc) = Unit

in_limits-AllPartial :
    (low high : ℕ) (lval : ℤ) (sp : TestSpec)
    → (low ≤ pos_part lval → pos_part lval ≤ high → IsPartial sp)
    → AllPartial (in_limits low high lval sp)
unfolding in_limits
in_limits-AllPartial low high lval sp h =
    elim (Bool-cases (ltb_ℤ lval (pos low) || ltb_ℤ (pos high) lval)) [
      | inl out ↦ rw out tt
      | inr inside ↦ rw inside (h (ground arith) (ground arith))
    ]

apply_kind-AllPartial :
    (k : Kind) (lval : ℤ) (sp : TestSpec)
    → IsEven k
    → IsPartial sp
    → AllPartial (apply_kind k lval sp)
unfolding apply_kind
apply_kind-AllPartial _ lval sp (even_mode flag e) h = record {
  even = ground (arith, or-halves sp.mode_flags flag, h.even);
  incr_low = h.incr_low;
  incr_high = h.incr_high;
  nincr_high = h.nincr_high;
  chunks_low = h.chunks_low;
}
apply_kind-AllPartial _ lval sp (any_opening flag) h = ground arith
apply_kind-AllPartial _ lval sp any_increment h =
    in_limits-AllPartial min_incr (min_incr + max_nincr * min_bufsz) lval _ λ low high. ground arith
apply_kind-AllPartial _ lval sp any_increments h =
    in_limits-AllPartial min_nincr max_nincr lval _ λ low high. ground arith
apply_kind-AllPartial _ lval sp any_chunks h = elim (Bool-cases (ltb_ℤ lval (pos 2))) [
  | inl few ↦ rw few tt
  | inr more ↦ rw more (ground arith)
]
apply_kind-AllPartial _ lval sp any_invalid h = tt

and_then-AllPartial :
    (e : Effect) (f : TestSpec → Effect)
    → AllPartial e
    → ((sp : TestSpec) → IsPartial sp → AllPartial (f sp))
    → AllPartial (and_then e f)
and_then-AllPartial (goes_on sp) f h k = k sp h
and_then-AllPartial (stops rc) f h k = tt

read_opt-AllPartial :
    (options : List (ℕ × ℤ)) (sp : TestSpec) → IsPartial sp → AllPartial (read_opt options sp)
unfolding read_opt
read_opt-AllPartial [] sp h = h
read_opt-AllPartial ((opt, lval) ∷ options) sp h =
    and_then-AllPartial (apply_kind (kind opt) lval sp) (read_opt options)
      (apply_kind-AllPartial (kind opt) lval sp (kind-IsEven opt) h)
      (λ sp' h'. read_opt-AllPartial options sp' h')

-- What `main` comes to: a test that it runs has settings in range.
abbrev AllSettled : Checked → Type 0
AllSettled usage_exit = Unit
AllSettled null_read = Unit
AllSettled (returns rc) = Unit
AllSettled (runs sp) = IsSettled sp

complete-AllSettled :
    (sp : TestSpec)
    → IsPartial sp
    → min_bufsz ≤ sp.len
    → sp.len ≤ max_bufsz
    → 0 < sp.niter
    → AllSettled (complete sp)
unfolding complete
complete-AllSettled sp h low high niter =
    let len = if sp.len == 0 then min_bufsz else sp.len in
    elim (Bool-cases (leb len sp.num_chunks)) [
      | inl many ↦ rw many tt
      | inr few ↦ rw few (record {
        len_low = ground arith;
        len_high = ground arith;
        niter_low = niter;
        incr_low = ground (arith, h.incr_low);
        incr_high = ground (arith, h.incr_high);
        nincr_low = ground arith;
        nincr_high = ground (arith, h.nincr_high);
        chunks_low = h.chunks_low;
        chunks_high = ground arith;
        even = h.even;
      })
    ]

check_niter-AllSettled :
    (niter : Option ℤ) (sp : TestSpec)
    → IsPartial sp
    → min_bufsz ≤ sp.len
    → sp.len ≤ max_bufsz
    → AllSettled (check_niter niter sp)
unfolding check_niter
check_niter-AllSettled none sp h low high = tt
check_niter-AllSettled (some niter) sp h low high = elim (Bool-cases (leb_ℤ niter (pos 0))) [
  | inl bad ↦ rw bad tt
  | inr good ↦ rw good (
      complete-AllSettled (record sp { niter = pos_part niter }) (ground arith) low high
        (ground arith))
]

check_operands-AllSettled :
    (operands : List ℤ) (sp : TestSpec) → IsPartial sp → AllSettled (check_operands operands sp)
unfolding check_operands check_bufsz
check_operands-AllSettled [] sp h = tt
check_operands-AllSettled (fname ∷ []) sp h = tt
check_operands-AllSettled (fname ∷ bufsz ∷ operands) sp h =
    elim (Bool-cases (ltb_ℤ bufsz (pos min_bufsz) || ltb_ℤ (pos max_bufsz) bufsz)) [
      | inl out ↦ rw out tt
      | inr inside ↦ rw inside (
          check_niter-AllSettled (get_elem? operands 0) (record sp { len = pos_part bufsz })
            (ground arith) (ground arith) (ground arith))
    ]

after_options-AllSettled :
    (operands : List ℤ) (e : Effect) → AllPartial e → AllSettled (after_options operands e)
after_options-AllSettled operands (goes_on sp) h = check_operands-AllSettled operands sp h
after_options-AllSettled operands (stops rc) h = tt

cleared-IsPartial : IsPartial cleared
cleared-IsPartial = omega arith

main_checks-AllSettled :
    (argc : ℕ) (options : List (ℕ × ℤ)) (operands : List ℤ)
    → AllSettled (main_checks argc options operands)
unfolding main_checks
main_checks-AllSettled argc options operands = elim (Bool-cases (ltb argc 3)) [
  | inl few ↦ rw few tt
  | inr more ↦ rw more (
      after_options-AllSettled operands (read_opt options cleared)
        (read_opt-AllPartial options cleared cleared-IsPartial))
]

-- Whatever the command line is, a test that `main` runs has settings in range: sizes and counts within
-- their limits, fewer chunks than bytes, none or at least two of them, and no flag for `fsync`.
pub main_checks-IsSettled :
    (argc : ℕ) (options : List (ℕ × ℤ)) (operands : List ℤ) (sp : TestSpec)
    → main_checks argc options operands ≡ runs sp
    → IsSettled sp
main_checks-IsSettled argc options operands sp e =
    subst AllSettled e (main_checks-AllSettled argc options operands)

-- With a file name and a valid buffer size, which are the two operands that `main` expects, and valid
-- options, `main` goes on to read a third one through a null pointer.
main_checks-null_read :
    (argc : ℕ) (options : List (ℕ × ℤ)) (fname bufsz : ℤ) (sp : TestSpec)
    → 3 ≤ argc
    → read_opt options cleared ≡ goes_on sp
    → pos min_bufsz ≤ℤ bufsz
    → bufsz ≤ℤ pos max_bufsz
    → main_checks argc options (fname ∷ bufsz ∷ []) ≡ null_read
unfolding main_checks check_operands check_bufsz check_niter
main_checks-null_read argc options fname bufsz sp h e low high =
    let enough : ltb argc 3 ≡ false = ground arith in
    let large : ltb_ℤ bufsz (pos min_bufsz) ≡ false = ground arith in
    let small : ltb_ℤ (pos max_bufsz) bufsz ≡ false = ground arith in
    rw (enough, e, large, small) refl
