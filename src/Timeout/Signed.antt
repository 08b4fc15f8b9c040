-- ===== src/Timeout/Signed.antt =====
-- The conversions on `i64`: `convert_timeout_100ns` of src/windows.rs, whose relative timeouts are
-- negative, and `convert_timeout` of src/futex/wasm_atomic.rs, where -1 stands for no timeout.
use mathlib.Core.Option
use valet_parking.Prelude.{◌+◌, ◌*◌, ◌/◌, Option, none, some, ltb, if◌then◌else◌}
use valet_parking.Prelude.Int.{ℤ, pos, negsuc, ◌+ℤ◌, ◌-ℤ◌, ◌*ℤ◌, neg_part}
use valet_parking.Word.{i64_max, checked_i64}
use valet_parking.Timeout.Duration.{Duration, Wait, forever, at_most}

infixl 5 ◌>>=◌
abbrev ◌>>=◌ : Option ℤ → (ℤ → Option ℤ) → Option ℤ
none >>= f = none
some x >>= f = f x

unfoldable pub convert_timeout_100ns : Option Duration → Option ℤ
convert_timeout_100ns (some duration) = if ltb i64_max duration.as_secs then none else do
  x ← checked_i64 (pos duration.as_secs *ℤ negsuc 9_999_999)
  checked_i64 (x -ℤ pos ((duration.subsec_nanos + 99) / 100))
convert_timeout_100ns none = none

unfoldable pub wasm_convert_timeout : Option Duration → ℤ
wasm_convert_timeout (some duration) =
    if ltb i64_max duration.as_secs
    then negsuc 0
    else Option.get_or
        (do
          x ← checked_i64 (pos duration.as_secs *ℤ pos 1000_000_000)
          checked_i64 (x +ℤ pos duration.subsec_nanos))
        (negsuc 0)
wasm_convert_timeout none = negsuc 0

-- "positive values are absolute and negative values are relative", in units of 100 ns; a null
-- pointer waits with no limit. Zero, which is no relative duration, returns at once.
abbrev pub nt_wait : Option ℤ → Wait
nt_wait none = forever
nt_wait (some z) = at_most (neg_part z * 100)

-- A negative number waits with no limit.
abbrev pub wasm_wait : ℤ → Wait
wasm_wait (pos n) = at_most n
wasm_wait (negsuc n) = forever
