-- ===== src/Timeout/Rounding.antt =====
-- The conversions, read back as their kernel interfaces read them, against `rounded` at the platform's
-- unit and limit.
use valet_parking.Prelude.{
  ℕ, ◌+◌, ◌-◌, ◌*◌, ◌^◌, ◌≤◌, ◌<◌, ◌≡◌, ◌≢◌, Option, none, some, arith, refl,
}
use valet_parking.Prelude.Int.{◌+ℤ◌, ◌-ℤ◌, ◌*ℤ◌}
use valet_parking.Word.{u32_max, i32_max, i64_max}
use valet_parking.Timeout.Duration.{
  Duration, IsDuration, IsTimeout, as_nanos, Wait, rounded, forever, at_most,
}
use valet_parking.Timeout.Timespec.{
  linux_convert_timeout, openbsd_convert_timeout, posix_convert_timeout, freebsd_convert_timeout,
  redox_convert_timeout, timespec_wait, umtx_wait,
}
use valet_parking.Timeout.Counted.{
  darwin_convert_timeout_us, dragonfly_convert_timeout_us, micros_wait, windows_convert_timeout_ms,
  millis_wait,
}
use valet_parking.Timeout.Signed.{convert_timeout_100ns, nt_wait, wasm_convert_timeout, wasm_wait}

-- A wait that ends no earlier than the timeout, and less than one unit later.
abbrev pub EndsWithin : (unit nanos : ℕ) → Wait → Type 0
EndsWithin unit nanos forever = Unit
EndsWithin unit nanos (at_most n) = (nanos ≤ n) × (n < nanos + unit)

pub rounded-EndsWithin :
    (unit limit : ℕ) (d : Duration)
    → 0 < unit
    → EndsWithin unit (as_nanos d) (rounded unit limit (some d))
rounded-EndsWithin unit limit d positive = ground arith

-- The longest timeout that a `timespec` holds, in nanoseconds.
abbrev pub timespec_limit : ℕ → ℕ
timespec_limit time_t_max = time_t_max * 1_000_000_000 + 999_999_999

pub timespec_rounded :
    (time_t_max clock : ℕ) (timeout : Option Duration)
    → IsTimeout timeout
    → let exact = rounded 1 (timespec_limit time_t_max) timeout in
      (timespec_wait (linux_convert_timeout time_t_max timeout) ≡ exact)
      × (timespec_wait (openbsd_convert_timeout time_t_max timeout) ≡ exact)
      × (timespec_wait (posix_convert_timeout time_t_max timeout) ≡ exact)
      × (umtx_wait (freebsd_convert_timeout time_t_max clock timeout) ≡ exact)
      × (timespec_wait (redox_convert_timeout timeout) ≡ rounded 1 (timespec_limit i64_max) timeout)
unfolding linux_convert_timeout openbsd_convert_timeout posix_convert_timeout
    freebsd_convert_timeout redox_convert_timeout
timespec_rounded m clock none valid = (refl, refl, refl, refl, refl)
timespec_rounded m clock (some d) valid =
    (ground arith, ground arith, ground arith, ground arith, ground arith)

pub darwin_rounded :
    (timeout : Option Duration)
    → IsTimeout timeout
    → timeout ≢ some (record { as_secs = 0; subsec_nanos = 0 })
    → micros_wait (darwin_convert_timeout_us timeout) ≡ rounded 1000 u32_max timeout
unfolding darwin_convert_timeout_us
darwin_rounded none valid positive = refl
darwin_rounded (some d) valid positive = ground arith

pub dragonfly_rounded :
    (timeout : Option Duration)
    → IsTimeout timeout
    → timeout ≢ some (record { as_secs = 0; subsec_nanos = 0 })
    → micros_wait (dragonfly_convert_timeout_us timeout) ≡ rounded 1000 i32_max timeout
unfolding dragonfly_convert_timeout_us
dragonfly_rounded none valid positive = refl
dragonfly_rounded (some d) valid positive = ground arith

pub windows_rounded :
    (timeout : Option Duration)
    → IsTimeout timeout
    → millis_wait (windows_convert_timeout_ms timeout) ≡ rounded 1_000_000 (u32_max - 1) timeout
unfolding windows_convert_timeout_ms
windows_rounded none valid = refl
windows_rounded (some d) valid = ground arith

pub nt_rounded :
    (timeout : Option Duration)
    → IsTimeout timeout
    → nt_wait (convert_timeout_100ns timeout) ≡ rounded 100 (2 ^ 63) timeout
unfolding convert_timeout_100ns ◌-ℤ◌ ◌*ℤ◌
nt_rounded none valid = refl
nt_rounded (some d) valid = ground arith

pub wasm_rounded :
    (timeout : Option Duration)
    → IsTimeout timeout
    → wasm_wait (wasm_convert_timeout timeout) ≡ rounded 1 i64_max timeout
unfolding wasm_convert_timeout ◌+ℤ◌ ◌*ℤ◌
wasm_rounded none valid = refl
wasm_rounded (some d) valid = ground arith

-- The zero timeout is the encoding of no timeout on these two platforms.
pub zero_waits_forever :
    (micros_wait (darwin_convert_timeout_us (some (record { as_secs = 0; subsec_nanos = 0 })))
      ≡ forever)
    × (micros_wait (dragonfly_convert_timeout_us (some (record { as_secs = 0; subsec_nanos = 0 })))
        ≡ forever)
unfolding darwin_convert_timeout_us dragonfly_convert_timeout_us
zero_waits_forever = (refl, refl)

-- Every timeout of at least 4295 s on Darwin, and of at least 2148 s on DragonFly BSD, is passed
-- to the kernel as no limit at all.
pub micros_dropped :
    (d : Duration)
    → IsDuration d
    → (4295 ≤ d.as_secs → micros_wait (darwin_convert_timeout_us (some d)) ≡ forever)
      × (2148 ≤ d.as_secs → micros_wait (dragonfly_convert_timeout_us (some d)) ≡ forever)
unfolding darwin_convert_timeout_us dragonfly_convert_timeout_us
micros_dropped d valid = (λ h. ground arith, λ h. ground arith)

-- For every timeout but zero, the microseconds given to ulock_wait on Darwin and to umtx_sleep on
-- DragonFly BSD are the timeout rounded up, or 0, which is no limit, if there is none or the
-- rounded count exceeds 2^32 - 1 on Darwin and 2^31 - 1 on DragonFly BSD.
pub micros_rounded :
    (timeout : Option Duration)
    → IsTimeout timeout
    → timeout ≢ some (record { as_secs = 0; subsec_nanos = 0 })
    → (micros_wait (darwin_convert_timeout_us timeout) ≡ rounded 1000 u32_max timeout)
      × (micros_wait (dragonfly_convert_timeout_us timeout) ≡ rounded 1000 i32_max timeout)
micros_rounded timeout fits positive =
    (darwin_rounded timeout fits positive, dragonfly_rounded timeout fits positive)
