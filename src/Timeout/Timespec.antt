-- ===== src/Timeout/Timespec.antt =====
-- The conversions to a `timespec`: src/futex/linux.rs, freebsd.rs, openbsd.rs and redox.rs, and
-- src/posix.rs. `time_t::max_value()` is the platform's and a parameter; the casts keep the value,
-- since the seconds were compared with that maximum and the nanoseconds are below 10^9.
use valet_parking.Prelude.{ℕ, ◌+◌, ◌*◌, Option, none, some, ltb, if◌then◌else◌}
use valet_parking.Word.{i64_max}
use valet_parking.Timeout.Duration.{Duration, Wait, forever, at_most}

pub record Timespec : Type 0 where
  pub tv_sec : ℕ
  pub tv_nsec : ℕ

abbrev pub timespec : Duration → Timespec
timespec d = record { tv_sec = d.as_secs; tv_nsec = d.subsec_nanos }

-- src/futex/freebsd.rs, `struct umtx_time`.
pub record UmtxTime : Type 0 where
  pub timeout : Timespec
  pub flags : ℕ
  pub clockid : ℕ

module _ (time_t_max : ℕ) where
  unfoldable pub linux_convert_timeout : Option Duration → Option Timespec
  linux_convert_timeout (some duration) =
      if ltb time_t_max duration.as_secs then none else some (timespec duration)
  linux_convert_timeout none = none

  unfoldable pub openbsd_convert_timeout : Option Duration → Option Timespec
  openbsd_convert_timeout (some duration) =
      if ltb time_t_max duration.as_secs then none else some (timespec duration)
  openbsd_convert_timeout none = none

  unfoldable pub posix_convert_timeout : Option Duration → Option Timespec
  posix_convert_timeout (some duration) =
      if ltb time_t_max duration.as_secs then none else some (timespec duration)
  posix_convert_timeout none = none

  -- `libc::CLOCK_MONOTONIC` is a parameter too.
  unfoldable pub freebsd_convert_timeout : ℕ → Option Duration → Option UmtxTime
  freebsd_convert_timeout clock_monotonic (some duration) =
      if ltb time_t_max duration.as_secs
      then none
      else some (record { timeout = timespec duration; flags = 0; clockid = clock_monotonic })
  freebsd_convert_timeout clock_monotonic none = none

unfoldable pub redox_convert_timeout : Option Duration → Option Timespec
redox_convert_timeout (some duration) =
    if ltb i64_max duration.as_secs then none else some (timespec duration)
redox_convert_timeout none = none

-- A null pointer in place of a `timespec` waits with no limit.
abbrev pub timespec_wait : Option Timespec → Wait
timespec_wait none = forever
timespec_wait (some ts) = at_most (ts.tv_sec * 1_000_000_000 + ts.tv_nsec)

abbrev pub umtx_wait : Option UmtxTime → Wait
umtx_wait none = forever
umtx_wait (some ut) = timespec_wait (some ut.timeout)
