-- ===== src/Prof/Probe.antt =====
-- The probe of prof/prfm.c. What `clock_gettime` and `getrusage` answer is a sample, without the part
-- whose call fails; a failure aborts, as the file is built without NDEBUG.
use bsl45_misc_tools.Prelude.{
  ℕ, Bool, not, ◌==◌, bit_and, if◌then◌else◌, ℤ, Option, none, some, Exec, done, abort, ◌>>=◌,
}
use bsl45_misc_tools.Prof.Usage.{
  Timespec, Rusage, TimeOps, timespecclear, rusage_clear, rusage_sub, rusage_add,
}

-- `struct prfm_metrics`
pub record Metrics : Type 0 where
  pub tm : Timespec
  pub ru : Rusage

-- `struct prfm`
pub record Prfm : Type 0 where
  pub who : ℤ
  pub flags : ℕ
  pub start : Metrics
  pub accum : Metrics

abbrev pub prfm_time : ℕ
prfm_time = 1

abbrev pub prfm_rusage : ℕ
prfm_rusage = 2

-- What the system answers to the two calls.
pub record Sample : Type 0 where
  pub clock : Option Timespec
  pub usage : Option Rusage

abbrev pub or_abort {ℓ} : {A : Type ℓ} → Option A → Exec A
or_abort none = abort
or_abort (some a) = done a

abbrev pub has : ℕ → ℕ → Bool
has flags flag = not (bit_and flags flag == 0)

unfoldable pub capture : Metrics → ℕ → Sample → Exec Metrics
capture t flags sample = do
  timed ←
      (if has flags prfm_time
        then (do tm ← or_abort sample.clock; done (record t { tm = tm }))
        else done t)
  if has flags prfm_rusage
      then (do ru ← or_abort sample.usage; done (record timed { ru = ru }))
      else done timed

unfoldable pub reset : Prfm → Prfm
reset r =
    let start_tm = if has r.flags prfm_time then timespecclear else r.start.tm in
    let accum_tm = if has r.flags prfm_time then timespecclear else r.accum.tm in
    let start_ru = if has r.flags prfm_rusage then rusage_clear else r.start.ru in
    let accum_ru = if has r.flags prfm_rusage then rusage_clear else r.accum.ru in
    record r {
      start = record { tm = start_tm; ru = start_ru };
      accum = record { tm = accum_tm; ru = accum_ru };
    }

unfoldable pub prfm_xinit : Prfm → ℕ → ℤ → Prfm
unfolding reset
prfm_xinit r flags rusage_who = record (reset (record r { flags = flags })) { who = rusage_who }

unfoldable pub prfm_destroy : Prfm → Prfm
unfolding reset
prfm_destroy r = record (reset r) { flags = 0 }

unfoldable pub prfm_start : Prfm → Sample → Exec Prfm
unfolding capture
prfm_start r sample = do start ← capture r.start r.flags sample; done (record r { start = start })

module _ (ops : TimeOps) where
  -- `curr` is not initialised before it is captured.
  unfoldable pub prfm_stop : Metrics → Prfm → Sample → Exec Prfm
  unfolding capture rusage_sub rusage_add
  prfm_stop junk r sample = do
    curr ← capture junk r.flags sample
    let tm =
        if has r.flags prfm_time
        then ops.timespecadd (ops.timespecsub curr.tm r.start.tm) r.accum.tm
        else r.accum.tm
    let ru =
        if has r.flags prfm_rusage
        then rusage_add ops (rusage_sub ops curr.ru r.start.ru) r.accum.ru
        else r.accum.ru
    done (record r { accum = record { tm = tm; ru = ru } })

-- The time that is captured is cleared.
unfoldable pub prfm_probe : Prfm → Sample → Exec Prfm
unfolding capture
prfm_probe r sample = do
  accum ← capture r.accum r.flags sample
  done (record r { accum = record accum { tm = timespecclear } })
