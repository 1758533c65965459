-- ===== src/Prof.antt =====
-- prof/prfm.c, prof/prfm.h and prof/rusage_ops.h: probes that add up the time and the resources spent
-- between their starts and stops. Usage has the arithmetic, Probe the functions, Sessions what
-- they add up to.
mod Usage
mod Probe
pub mod Sessions
mod Tests
