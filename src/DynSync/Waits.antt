-- ===== src/DynSync/Waits.antt =====
-- Waits for two names in debugsync/debugsync_dyn.c, whose condition they share.
use bsl45_misc_tools.Prelude.{
  ℕ, ◌≤◌, ◌≡◌, ◌≢◌, refl, sym, ◌∙◌, inl, inr, List, [], ◌∷◌, false, none, done, length, take_all,
  Bool-cases,
}
use bsl45_misc_tools.DynSync.Points.{DsGlobal, Bsearch, static_ds, ds_init, ds_maxlen}
use bsl45_misc_tools.DynSync.Calls.{sleeps, same, given_up, wait_on, waiting, ds_wait, ds_signal}
use bsl45_misc_tools.DynSync.Names.{same-eq}
use bsl45_misc_tools.DynSync.Threads.{
  outside, asleep, ready, System, system, Step, waits, signals, resumes, Steps, stays, then_step,
}

same-ne : (a b : List ℕ) → a ≢ b → same a b ≡ false
same-ne a b h = elim (Bool-cases (same a b)) [ inl e ↦ absurd (h (same-eq a b e)) | inr e ↦ e ]

-- A wait for a name other than the last signal.
pub waiting-sleeps :
    (name : List ℕ) (ds : DsGlobal)
    → ds.signal ≢ name
    → waiting name none ds ≡ done (record { state = ds; reply = sleeps name none })
unfolding waiting wait_on given_up
waiting-sleeps name ds h = rw (same-ne ds.signal name h) refl

-- Three threads outside, in the state that `ds_init` leaves.
abbrev pub start : System
start = system (ds_init static_ds) (outside ∷ outside ∷ outside ∷ [])

-- For two names that are not empty, the first of at most 32 bytes, threads can come to where one sleeps
-- for the first name, another one for the second, and the first name is the last signal: the signal has
-- woken the thread that waits for the other name, which sleeps again.
pub Steps-lost :
    (bsearch : Bsearch) (a b : List ℕ)
    → a ≢ []
    → b ≢ []
    → a ≢ b
    → length a ≤ ds_maxlen
    → (s : System) × Steps bsearch start s
      × (s.ds.signal ≡ a)
      × (s.threads ≡ asleep a none ∷ asleep b none ∷ outside ∷ [])
unfolding ds_init ds_wait ds_signal
Steps-lost bsearch a b some_a some_b differ short =
    let d = ds_init static_ds in
    let told = (ds_signal a d).state in
    let heard : told.signal ≡ a = take_all ds_maxlen a short in
    let one = system d (asleep a none ∷ outside ∷ outside ∷ []) in
    let both = system d (asleep a none ∷ asleep b none ∷ outside ∷ []) in
    let woken = system told (asleep a none ∷ ready b none ∷ outside ∷ []) in
    let again = system told (asleep a none ∷ asleep b none ∷ outside ∷ []) in
    let first : Step bsearch start one =
      waits d start.threads 0 a _ refl (waiting-sleeps a d (λ e. some_a (sym e))) in
    let second : Step bsearch one both =
      waits d one.threads 1 b _ refl (waiting-sleeps b d (λ e. some_b (sym e))) in
    let third : Step bsearch both woken = signals d both.threads 2 1 a b none refl refl in
    let fourth : Step bsearch woken again =
      resumes told woken.threads 1 b none _ refl
        (waiting-sleeps b told (λ e. differ (sym heard ∙ e))) in
    (
      again,
      then_step start woken again
          (then_step start both woken
            (then_step start one both (then_step start start one (stays start) first) second) third)
          fourth,
      heard,
      refl,
    )
