-- ===== src/Prof/Usage.antt =====
-- The metrics of prof/prfm.h, and the arithmetic of prof/rusage_ops.h on them. A `long` is taken not
-- to overflow. The operations on `struct timeval` and `struct timespec` are those of a header that
-- is copied from NetBSD, and stand as a parameter.
use bsl45_misc_tools.Prelude.{ℤ, pos, ◌+ℤ◌, ◌-ℤ◌}

pub record Timespec : Type 0 where
  pub tv_sec : ℤ
  pub tv_nsec : ℤ

pub record Timeval : Type 0 where
  pub tv_sec : ℤ
  pub tv_usec : ℤ

-- `struct rusage`
pub record Rusage : Type 0 where
  pub ru_utime : Timeval
  pub ru_stime : Timeval
  pub ru_maxrss : ℤ
  pub ru_ixrss : ℤ
  pub ru_idrss : ℤ
  pub ru_isrss : ℤ
  pub ru_minflt : ℤ
  pub ru_majflt : ℤ
  pub ru_nswap : ℤ
  pub ru_inblock : ℤ
  pub ru_oublock : ℤ
  pub ru_msgsnd : ℤ
  pub ru_msgrcv : ℤ
  pub ru_nsignals : ℤ
  pub ru_nvcsw : ℤ
  pub ru_nivcsw : ℤ

-- The operations on times.
pub record TimeOps : Type 0 where
  pub timespecadd : Timespec → Timespec → Timespec
  pub timespecsub : Timespec → Timespec → Timespec
  pub timeradd : Timeval → Timeval → Timeval
  pub timersub : Timeval → Timeval → Timeval

abbrev pub timespecclear : Timespec
timespecclear = record { tv_sec = pos 0; tv_nsec = pos 0 }

abbrev pub timerclear : Timeval
timerclear = record { tv_sec = pos 0; tv_usec = pos 0 }

abbrev pub rusage_clear : Rusage
rusage_clear = record {
  ru_utime = timerclear;
  ru_stime = timerclear;
  ru_maxrss = pos 0;
  ru_ixrss = pos 0;
  ru_idrss = pos 0;
  ru_isrss = pos 0;
  ru_minflt = pos 0;
  ru_majflt = pos 0;
  ru_nswap = pos 0;
  ru_inblock = pos 0;
  ru_oublock = pos 0;
  ru_msgsnd = pos 0;
  ru_msgrcv = pos 0;
  ru_nsignals = pos 0;
  ru_nvcsw = pos 0;
  ru_nivcsw = pos 0;
}

module _ (ops : TimeOps) where
  unfoldable pub rusage_sub : Rusage → Rusage → Rusage
  rusage_sub a b = record {
    ru_utime = ops.timersub a.ru_utime b.ru_utime;
    ru_stime = ops.timersub a.ru_stime b.ru_stime;
    ru_maxrss = a.ru_maxrss -ℤ b.ru_maxrss;
    ru_ixrss = a.ru_ixrss -ℤ b.ru_ixrss;
    ru_idrss = a.ru_idrss -ℤ b.ru_idrss;
    ru_isrss = a.ru_isrss -ℤ b.ru_isrss;
    ru_minflt = a.ru_minflt -ℤ b.ru_minflt;
    ru_majflt = a.ru_majflt -ℤ b.ru_majflt;
    ru_nswap = a.ru_nswap -ℤ b.ru_nswap;
    ru_inblock = a.ru_inblock -ℤ b.ru_inblock;
    ru_oublock = a.ru_oublock -ℤ b.ru_oublock;
    ru_msgsnd = a.ru_msgsnd -ℤ b.ru_msgsnd;
    ru_msgrcv = a.ru_msgrcv -ℤ b.ru_msgrcv;
    ru_nsignals = a.ru_nsignals -ℤ b.ru_nsignals;
    ru_nvcsw = a.ru_nvcsw -ℤ b.ru_nvcsw;
    ru_nivcsw = a.ru_nivcsw -ℤ b.ru_nivcsw;
  }

  unfoldable pub rusage_add : Rusage → Rusage → Rusage
  rusage_add a b = record {
    ru_utime = ops.timeradd a.ru_utime b.ru_utime;
    ru_stime = ops.timeradd a.ru_stime b.ru_stime;
    ru_maxrss = a.ru_maxrss +ℤ b.ru_maxrss;
    ru_ixrss = a.ru_ixrss +ℤ b.ru_ixrss;
    ru_idrss = a.ru_idrss +ℤ b.ru_idrss;
    ru_isrss = a.ru_isrss +ℤ b.ru_isrss;
    ru_minflt = a.ru_minflt +ℤ b.ru_minflt;
    ru_majflt = a.ru_majflt +ℤ b.ru_majflt;
    ru_nswap = a.ru_nswap +ℤ b.ru_nswap;
    ru_inblock = a.ru_inblock +ℤ b.ru_inblock;
    ru_oublock = a.ru_oublock +ℤ b.ru_oublock;
    ru_msgsnd = a.ru_msgsnd +ℤ b.ru_msgsnd;
    ru_msgrcv = a.ru_msgrcv +ℤ b.ru_msgrcv;
    ru_nsignals = a.ru_nsignals +ℤ b.ru_nsignals;
    ru_nvcsw = a.ru_nvcsw +ℤ b.ru_nvcsw;
    ru_nivcsw = a.ru_nivcsw +ℤ b.ru_nivcsw;
  }
