-- ===== src/DynSync/Runs.antt =====
-- What threads that call debugsync/debugsync_dyn.c can reach: the signal is cut to 32 bytes, and the
-- name that a thread waits for is not.
use bsl45_misc_tools.Prelude.{
  ℕ, ◌≤◌, ◌<◌, ◌≡◌, ◌≢◌, sym, subst, ◌⊎◌, inl, inr, ◌∙◌, ap, List, ◌==◌, Option, none, some, Exec,
  done, fault, length, length-take, get_elem?, get_elem?-lt, get_elem?-set_self, get_elem?-set_ne,
  some-injective, set, arith, Bool-cases,
}
use bsl45_misc_tools.DynSync.Points.{DsGlobal, Bsearch, Pointer, ds_maxlen}
use bsl45_misc_tools.DynSync.Calls.{Section, sleeps, waiting, ds_wait, ds_signal}
use bsl45_misc_tools.DynSync.Threads.{
  Thread, outside, asleep, ready, after_reply, System, system, ran, Step, sets, waits, signals,
  signals_nobody, wakes_up, resumes, Steps, stays, then_step,
}
use bsl45_misc_tools.DynSync.Keeps.{Gives-done, KeepsSection, waiting-Keeps, ds_set-Keeps}
use bsl45_misc_tools.DynSync.Acquire.{done-injective}
use bsl45_misc_tools.DynSync.Waits.{waiting-sleeps}

-- A thread in `ds_wait` for a name, asleep or woken.
abbrev pub WaitsFor : List ℕ → List Thread → ℕ → Type 0
WaitsFor name threads t =
    (get_elem? threads t ≡ some (asleep name none)) ⊎ (get_elem? threads t ≡ some (ready name none))

-- A state in which the signal is cut, and the thread waits.
abbrev Stuck : List ℕ → ℕ → System → Type 0
Stuck name t s = (length s.ds.signal ≤ ds_maxlen) × WaitsFor name s.threads t

-- Another thread moves.
WaitsFor-other :
    (name : List ℕ) (threads : List Thread) (t u : ℕ) (new : Thread)
    → u ≢ t
    → WaitsFor name threads t
    → WaitsFor name (set threads u new) t
WaitsFor-other name threads t u new apart (inl e) = inl (get_elem?-set_ne threads new apart ∙ e)
WaitsFor-other name threads t u new apart (inr e) = inr (get_elem?-set_ne threads new apart ∙ e)

WaitsFor-outside :
    (name : List ℕ) (threads : List Thread) (t u : ℕ)
    → WaitsFor name threads t
    → get_elem? threads u ≡ some outside
    → u ≢ t
WaitsFor-outside name threads t u (inl e) out same_thread = cc (e, out, same_thread)
WaitsFor-outside name threads t u (inr e) out same_thread = cc (e, out, same_thread)

abbrev woken : Thread → Thread
woken outside = outside
woken (asleep name pt) = ready name pt
woken (ready name pt) = ready name pt

-- A sleeper wakes.
WaitsFor-woken :
    (name : List ℕ) (threads : List Thread) (t u : ℕ) (other : List ℕ) (pt : Option Pointer)
    → WaitsFor name threads t
    → get_elem? threads u ≡ some (asleep other pt)
    → WaitsFor name (set threads u (ready other pt)) t
WaitsFor-woken name threads t u other pt w e = elim (Bool-cases (u == t)) [
  | inl same_thread ↦
      let here : u ≡ t = ground (arith, same_thread) in
      let put =
        get_elem?-set_self threads u (ready other pt)
          (get_elem?-lt threads u (asleep other pt) e) in
      let there = ap (λ k. get_elem? (set threads u (ready other pt)) k) (sym here) ∙ put in
      elim w [
        | inl slept ↦
            let it =
              some-injective (asleep other pt) (asleep name none)
                (sym e ∙ ap (λ k. get_elem? threads k) here ∙ slept) in
            inr (there ∙ ap (λ thread. some (woken thread)) it)
        | inr was_ready ↦ cc (e, here, was_ready)
      ]
  | inr apart ↦ WaitsFor-other name threads t u (ready other pt) (ground (arith, apart)) w
]

abbrev resumed : Thread → DsGlobal → Exec Section
resumed outside ds = fault
resumed (asleep name pt) ds = fault
resumed (ready name pt) ds = waiting name pt ds

long-ne :
    (signal name : List ℕ) → length signal ≤ ds_maxlen → ds_maxlen < length name → signal ≢ name
long-ne signal name short long e =
    let size = ap (λ l. length l) e in omega (arith, size, short, long)

-- A woken thread takes the mutex.
resumes-Stuck :
    (name : List ℕ) (t u : ℕ) (ds : DsGlobal) (threads : List Thread) (other : List ℕ)
    (pt : Option Pointer) (s : Section)
    → ds_maxlen < length name
    → Stuck name t (system ds threads)
    → get_elem? threads u ≡ some (ready other pt)
    → waiting other pt ds ≡ done s
    → Stuck name t (ran u s threads)
resumes-Stuck name t u ds threads other pt s long (short, w) e run =
    let kept : s.state.signal ≡ ds.signal =
      Gives-done (KeepsSection ds) (waiting other pt ds) s (waiting-Keeps other pt ds) run in
    let short' : length s.state.signal ≤ ds_maxlen =
      subst (λ l. length l ≤ ds_maxlen) (sym kept) short in
    (
      short',
      elim (Bool-cases (u == t)) [
        | inl same_thread ↦
            let here : u ≡ t = ground (arith, same_thread) in
            let put =
              get_elem?-set_self threads u (after_reply s.reply)
                (get_elem?-lt threads u (ready other pt) e) in
            let there =
              ap (λ k. get_elem? (set threads u (after_reply s.reply)) k) (sym here) ∙ put in
            elim w [
              | inl slept ↦ cc (e, here, slept)
              | inr was_ready ↦
                  let it =
                    some-injective (ready other pt) (ready name none)
                      (sym e ∙ ap (λ k. get_elem? threads k) here ∙ was_ready) in
                  let again : record { state = ds; reply = sleeps name none } ≡ s =
                    done-injective _ _ (
                      sym (waiting-sleeps name ds (long-ne ds.signal name short long))
                      ∙ ap (λ thread. resumed thread ds) (sym it)
                      ∙ run) in
                  inl (there ∙ ap (λ r. some (after_reply r.reply)) (sym again))
            ]
        | inr apart ↦
            WaitsFor-other name threads t u (after_reply s.reply) (ground (arith, apart)) w
      ],
    )

-- A thread that was outside has run a section that cuts the signal or leaves it.
ran-Stuck :
    (name : List ℕ) (t u : ℕ) (threads : List Thread) (s : Section)
    → length s.state.signal ≤ ds_maxlen
    → WaitsFor name threads t
    → u ≢ t
    → Stuck name t (ran u s threads)
ran-Stuck name t u threads s short w apart =
    (short, WaitsFor-other name threads t u (after_reply s.reply) apart w)

Step-Stuck :
    (bsearch : Bsearch) (name : List ℕ) (t : ℕ) (s s' : System)
    → ds_maxlen < length name
    → Stuck name t s
    → Step bsearch s s'
    → Stuck name t s'
unfolding ds_signal ds_wait
Step-Stuck bsearch name t _ _ long (short, w)
      (sets ds threads u grows served other enable r out run) =
    let kept =
      Gives-done (KeepsSection ds) _ r (ds_set-Keeps bsearch grows served other enable ds) run in
    ran-Stuck name t u threads r (subst (λ l. length l ≤ ds_maxlen) (sym kept) short) w
      (WaitsFor-outside name threads t u w out)
Step-Stuck bsearch name t _ _ long (short, w) (waits ds threads u other r out run) =
    let kept = Gives-done (KeepsSection ds) _ r (waiting-Keeps other none ds) run in
    ran-Stuck name t u threads r (subst (λ l. length l ≤ ds_maxlen) (sym kept) short) w
      (WaitsFor-outside name threads t u w out)
Step-Stuck bsearch name t _ _ long (short, w) (signals ds threads u v told other pt out e) =
    ran-Stuck name t u (set threads v (ready other pt)) (ds_signal told ds)
      (omega (arith, length-take ds_maxlen told)) (WaitsFor-woken name threads t v other pt w e)
      (WaitsFor-outside name threads t u w out)
Step-Stuck bsearch name t _ _ long (short, w) (signals_nobody ds threads u told out nobody) =
    ran-Stuck name t u threads (ds_signal told ds) (omega (arith, length-take ds_maxlen told)) w
      (WaitsFor-outside name threads t u w out)
Step-Stuck bsearch name t _ _ long (short, w) (wakes_up ds threads u other pt e) =
    (short, WaitsFor-woken name threads t u other pt w e)
Step-Stuck bsearch name t _ _ long h (resumes ds threads u other pt r e run) =
    resumes-Stuck name t u ds threads other pt r long h e run

Steps-Stuck :
    (bsearch : Bsearch) (name : List ℕ) (t : ℕ) (s s' : System)
    → ds_maxlen < length name
    → Stuck name t s
    → Steps bsearch s s'
    → Stuck name t s'
Steps-Stuck bsearch name t _ _ long h (stays s) = h
Steps-Stuck bsearch name t _ _ long h (then_step s r s' run step) =
    Step-Stuck bsearch name t r s' long (Steps-Stuck bsearch name t s r long h run) step

-- A thread in `ds_wait` for a name of more than 32 bytes stays there, whatever threads do, where the
-- last signal was cut, as `ds_signal` cuts it.
pub Steps-WaitsFor :
    (bsearch : Bsearch) (name : List ℕ) (t : ℕ) (s s' : System)
    → ds_maxlen < length name
    → length s.ds.signal ≤ ds_maxlen
    → WaitsFor name s.threads t
    → Steps bsearch s s'
    → WaitsFor name s'.threads t
Steps-WaitsFor bsearch name t s s' long short w run =
    (Steps-Stuck bsearch name t s s' long (short, w) run).1
