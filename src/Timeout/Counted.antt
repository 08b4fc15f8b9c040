-- ===== src/Timeout/Counted.antt =====
-- The conversions to an unsigned count of micro- or milliseconds: src/futex/darwin.rs,
-- dragonfly.rs and windows.rs. The calls are chained as in the source, on `u64` with overflow.
use mathlib.Core.Option
use valet_parking.Prelude.{ℕ, ◌+◌, ◌*◌, ◌/◌, ◌==◌, Option, none, some, ltb, if◌then◌else◌}
use valet_parking.Word.{u32_max, i32_max, checked_mul_u64, checked_add_u64}
use valet_parking.Timeout.Duration.{Duration, Wait, forever, at_most}

infixl 5 ◌>>=◌
abbrev ◌>>=◌ : Option ℕ → (ℕ → Option ℕ) → Option ℕ
none >>= f = none
some x >>= f = f x

unfoldable pub darwin_convert_timeout_us : Option Duration → ℕ
darwin_convert_timeout_us none = 0
darwin_convert_timeout_us (some duration) =
    Option.get_or
      (Option.map (λ ms. if ltb u32_max ms then 0 else ms)
        (do
          x ← checked_mul_u64 duration.as_secs 1000_000
          checked_add_u64 x ((duration.subsec_nanos + 999) / 1000)))
      0

unfoldable pub dragonfly_convert_timeout_us : Option Duration → ℕ
dragonfly_convert_timeout_us none = 0
dragonfly_convert_timeout_us (some duration) =
    Option.get_or
      (Option.map (λ ms. if ltb i32_max ms then 0 else ms)
        (do
          x ← checked_mul_u64 duration.as_secs 1000_000
          checked_add_u64 x ((duration.subsec_nanos + 999) / 1000)))
      0

-- `INFINITE` of winbase.h, and `DWORD::max_value()`.
abbrev pub infinite : ℕ
infinite = 0xffff_ffff

unfoldable pub windows_convert_timeout_ms : Option Duration → ℕ
windows_convert_timeout_ms none = infinite
windows_convert_timeout_ms (some duration) =
    Option.get_or
      (Option.map (λ ms. if ltb u32_max ms then infinite else ms)
        (do
          x ← checked_mul_u64 duration.as_secs 1000
          checked_add_u64 x ((duration.subsec_nanos + 999999) / 1000000)))
      infinite

-- "timeout is specified in microseconds, with 0 for infinite".
abbrev pub micros_wait : ℕ → Wait
micros_wait us = if us == 0 then forever else at_most (us * 1000)

abbrev pub millis_wait : ℕ → Wait
millis_wait ms = if ms == infinite then forever else at_most (ms * 1_000_000)
