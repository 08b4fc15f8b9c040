-- ===== src/Timeout/Duration.antt =====
-- `core::time::Duration`, and the specification that the conversions of all platforms meet: a
-- timeout is rounded up to the unit of the platform, and one that is too long never expires.
use valet_parking.Prelude.{ℕ, ◌+◌, ◌-◌, ◌*◌, ◌/◌, ◌≤◌, ◌<◌, Option, none, some, leb, if◌then◌else◌}
use valet_parking.Word.{u64_max}

pub record Duration : Type 0 where
  pub as_secs : ℕ
  pub subsec_nanos : ℕ

-- A `Duration` holds a `u64` of seconds, and fewer nanoseconds than make up a second.
pub record IsDuration (d : Duration) : Type 0 where
  pub secs_fit : d.as_secs ≤ u64_max
  pub nanos_fit : d.subsec_nanos < 1_000_000_000

abbrev pub as_nanos : Duration → ℕ
as_nanos d = d.as_secs * 1_000_000_000 + d.subsec_nanos

-- How long a wait may last, in nanoseconds.
pub data Wait : Type 0 where
  forever : Wait
  at_most : ℕ → Wait

abbrev pub ceil_div : ℕ → ℕ → ℕ
ceil_div n unit = (n + (unit - 1)) / unit

-- The least number of units that is no shorter than the timeout, if it is within the limit.
abbrev pub rounded : (unit limit : ℕ) → Option Duration → Wait
rounded unit limit none = forever
rounded unit limit (some d) =
    if leb (ceil_div (as_nanos d) unit) limit
    then at_most (ceil_div (as_nanos d) unit * unit)
    else forever

-- What the type `Option<Duration>` gives.
abbrev pub IsTimeout : Option Duration → Type 0
IsTimeout none = Unit
IsTimeout (some d) = IsDuration d
