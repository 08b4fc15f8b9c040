-- ===== src/Timeout/Examples.antt =====
-- The theorems on conversions at concrete timeouts.
use valet_parking.Prelude.{◌≡◌, ◌≤◌, some, arith, refl}
use valet_parking.Prelude.Int.{negsuc, ◌-ℤ◌, ◌*ℤ◌}
use valet_parking.Timeout.Duration.{Duration, IsDuration, at_most, forever}
use valet_parking.Timeout.Counted.{
  darwin_convert_timeout_us, dragonfly_convert_timeout_us, micros_wait,
}
use valet_parking.Timeout.Signed.{convert_timeout_100ns}
use valet_parking.Timeout.Rounding.{micros_rounded, micros_dropped}

-- A second, a millisecond and a nanosecond.
abbrev some_time : Duration
some_time = record { as_secs = 1; subsec_nanos = 1_000_001 }

some_time-IsDuration : IsDuration some_time
some_time-IsDuration = record { secs_fit = omega arith; nanos_fit = omega arith }

-- Two hours.
abbrev long_time : Duration
long_time = record { as_secs = 7200; subsec_nanos = 0 }

long_time-IsDuration : IsDuration long_time
long_time-IsDuration = record { secs_fit = omega arith; nanos_fit = omega arith }

some_time_100ns : convert_timeout_100ns (some some_time) ≡ some (negsuc 10_010_000)
unfolding convert_timeout_100ns ◌-ℤ◌ ◌*ℤ◌
some_time_100ns = refl

some_time_us : darwin_convert_timeout_us (some some_time) ≡ 1_001_001
unfolding darwin_convert_timeout_us
some_time_us = refl

micros_rounded_example :
    (micros_wait (darwin_convert_timeout_us (some some_time)) ≡ at_most 1_001_001_000)
    × (micros_wait (dragonfly_convert_timeout_us (some some_time)) ≡ at_most 1_001_001_000)
micros_rounded_example = micros_rounded (some some_time) some_time-IsDuration (λ e. cc)

micros_dropped_example :
    (4295 ≤ 7200 → micros_wait (darwin_convert_timeout_us (some long_time)) ≡ forever)
    × (2148 ≤ 7200 → micros_wait (dragonfly_convert_timeout_us (some long_time)) ≡ forever)
micros_dropped_example = micros_dropped long_time long_time-IsDuration
