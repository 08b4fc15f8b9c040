-- ===== src/Futex/Reasons.antt =====
-- What the reasons that `wait` reports tell the caller.
use valet_parking.Prelude.{ℕ, ◌-◌, ◌≡◌, ◌≢◌, ◌↔◌, Bool, false, Option, some, arith, refl}
use valet_parking.Prelude.Int.{pos, negsuc}
use valet_parking.Word.{u32_max, i64_max}
use valet_parking.Timeout.Duration.{Duration, IsTimeout, rounded, forever}
use valet_parking.Timeout.Counted.{windows_convert_timeout_ms}
use valet_parking.Timeout.Rounding.{
  timespec_limit, timespec_rounded, darwin_rounded, windows_rounded,
}
use valet_parking.Futex.{WakeupReason, timed_out, Outcome, ok, err, panic}
use valet_parking.Futex.Linux
use valet_parking.Futex.FreeBsd
use valet_parking.Futex.OpenBsd
use valet_parking.Futex.Redox
use valet_parking.Futex.Fuchsia
use valet_parking.Futex.Wasm
use valet_parking.Futex.Darwin
use valet_parking.Futex.DragonFly
use valet_parking.Futex.Windows

-- Systems that report a timeout by an error number.
module _ (debug : Bool) (expected : ℕ) (timeout : Option Duration) (fits : IsTimeout timeout) where
  pub linux_timed_out :
      (s : Linux.System)
      → Linux.IsSystem s
      → (Linux.wait debug s expected timeout ≡ ok timed_out) ↔ (
          (Linux.answer debug s expected timeout ≡ (negsuc 0, s.etimedout))
          × (rounded 1 (timespec_limit s.time_t_max) timeout ≢ forever))
  unfolding Linux.wait
  linux_timed_out s valid = ground (arith, timespec_rounded s.time_t_max 0 timeout fits)

  pub freebsd_timed_out :
      (s : FreeBsd.System)
      → FreeBsd.IsSystem s
      → (FreeBsd.wait debug s expected timeout ≡ ok timed_out) ↔ (
          (FreeBsd.answer debug s expected timeout ≡ (negsuc 0, s.etimedout))
          × (rounded 1 (timespec_limit s.time_t_max) timeout ≢ forever))
  unfolding FreeBsd.wait
  freebsd_timed_out s valid =
      ground (arith, timespec_rounded s.time_t_max s.clock_monotonic timeout fits)

  pub openbsd_timed_out :
      (s : OpenBsd.System)
      → OpenBsd.IsSystem s
      → (OpenBsd.wait debug s expected timeout ≡ ok timed_out) ↔ (
          (OpenBsd.answer debug s expected timeout ≡ pos s.etimedout)
          × (rounded 1 (timespec_limit s.time_t_max) timeout ≢ forever))
  unfolding OpenBsd.wait
  openbsd_timed_out s valid = ground (arith, timespec_rounded s.time_t_max 0 timeout fits)

  pub redox_timed_out :
      (s : Redox.System)
      → Redox.IsSystem s
      → (Redox.wait debug s expected timeout ≡ ok timed_out) ↔ (
          (Redox.answer debug s expected timeout ≡ Redox.failed s.etimedout)
          × (rounded 1 (timespec_limit i64_max) timeout ≢ forever))
  unfolding Redox.wait
  redox_timed_out s valid = ground (arith, timespec_rounded 0 0 timeout fits)

  -- If ETIMEDOUT differs from the other error numbers that wait tells apart, and on OpenBSD is
  -- positive, then on Linux, FreeBSD, OpenBSD and Redox wait reports TimedOut exactly when the
  -- call of the kernel ended with ETIMEDOUT and the timeout amounts to a limit.
  pub timespec_timed_out :
      (l : Linux.System) (f : FreeBsd.System) (o : OpenBsd.System) (r : Redox.System)
      → Linux.IsSystem l
      → FreeBsd.IsSystem f
      → OpenBsd.IsSystem o
      → Redox.IsSystem r
      → ((Linux.wait debug l expected timeout ≡ ok timed_out) ↔ (
          (Linux.answer debug l expected timeout ≡ (negsuc 0, l.etimedout))
          × (rounded 1 (timespec_limit l.time_t_max) timeout ≢ forever)))
        × ((FreeBsd.wait debug f expected timeout ≡ ok timed_out) ↔ (
            (FreeBsd.answer debug f expected timeout ≡ (negsuc 0, f.etimedout))
            × (rounded 1 (timespec_limit f.time_t_max) timeout ≢ forever)))
        × ((OpenBsd.wait debug o expected timeout ≡ ok timed_out) ↔ (
            (OpenBsd.answer debug o expected timeout ≡ pos o.etimedout)
            × (rounded 1 (timespec_limit o.time_t_max) timeout ≢ forever)))
        × ((Redox.wait debug r expected timeout ≡ ok timed_out) ↔ (
            (Redox.answer debug r expected timeout ≡ Redox.failed r.etimedout)
            × (rounded 1 (timespec_limit i64_max) timeout ≢ forever)))
  timespec_timed_out l f o r linux freebsd openbsd redox = (
    linux_timed_out l linux,
    freebsd_timed_out f freebsd,
    openbsd_timed_out o openbsd,
    redox_timed_out r redox,
  )

  pub darwin_timed_out :
      (s : Darwin.System)
      → Darwin.IsSystem s
      → timeout ≢ some (record { as_secs = 0; subsec_nanos = 0 })
      → (Darwin.wait debug s expected timeout ≡ ok timed_out) ↔ (
          (Darwin.answer debug s expected timeout ≡ (negsuc 0, s.etimedout))
          × (rounded 1000 u32_max timeout ≢ forever))
  unfolding Darwin.wait
  darwin_timed_out s valid positive = ground (arith, darwin_rounded timeout fits positive)

  pub windows_timed_out :
      (error_timeout size : ℕ) (f : Windows.WaitAddress)
      → (Windows.wait debug error_timeout (Windows.wait_address f) size expected timeout
          ≡ ok timed_out)
        ↔ ((f.wait_on_address expected size (windows_convert_timeout_ms timeout)
              ≡ (false, error_timeout))
            × (rounded 1_000_000 (u32_max - 1) timeout ≢ forever))
  unfolding Windows.wait
  windows_timed_out error_timeout size f = ground (arith, windows_rounded timeout fits)

-- A normal return, with some reason.
abbrev pub Returns : Outcome WakeupReason → Type 0
Returns (ok r) = Unit
Returns err = ⊥
Returns panic = ⊥

module _ (expected : ℕ) (timeout : Option Duration) where
  pub wait-Returns :
      ((s : Linux.System) → Returns (Linux.wait false s expected timeout))
      × ((s : FreeBsd.System) → Returns (FreeBsd.wait false s expected timeout))
      × ((s : OpenBsd.System) → Returns (OpenBsd.wait false s expected timeout))
      × ((s : Redox.System) → Returns (Redox.wait false s expected timeout))
      × ((s : Fuchsia.System) → Returns (Fuchsia.wait false s expected timeout))
      × ((s : Wasm.System) → Returns (Wasm.wait false s expected timeout))
      × ((s : Darwin.System) → Returns (Darwin.wait false s expected timeout))
      × ((s : DragonFly.System) → Returns (DragonFly.wait false s expected timeout))
  unfolding Linux.wait FreeBsd.wait OpenBsd.wait Redox.wait Fuchsia.wait Wasm.wait Darwin.wait
      DragonFly.wait
  wait-Returns = (
    λ s. ground arith,
    λ s. ground arith,
    λ s. ground arith,
    λ s. ground arith,
    λ s. ground arith,
    λ s. ground arith,
    λ s. ground arith,
    λ s. ground arith,
  )

  pub dragonfly_never_timed_out :
      (debug : Bool) (s : DragonFly.System) → DragonFly.wait debug s expected timeout ≢ ok timed_out
  unfolding DragonFly.wait
  dragonfly_never_timed_out debug s = ground arith

  pub windows_wait-Returns_iff :
      (error_timeout size : ℕ) (b : Windows.Backend)
      → Returns (Windows.wait false error_timeout b size expected timeout)
        ↔ ((f : Windows.WaitAddress) × (b ≡ Windows.wait_address f))
  unfolding Windows.wait
  windows_wait-Returns_iff error_timeout size Windows.missing = ground arith
  windows_wait-Returns_iff error_timeout size (Windows.wait_address f) =
      (λ _. (f, refl), λ _. ground arith)
  windows_wait-Returns_iff error_timeout size Windows.keyed_event = ground arith
