-- ===== src/Timeout/Deadline.antt =====
-- `convert_timeout` of src/futex/fuchsia.rs: an absolute deadline on the clock of the kernel.
use valet_parking.Prelude.{ℕ, Option, none, some, ltb, if◌then◌else◌}
use valet_parking.Word.{u64_max}
use valet_parking.Timeout.Duration.{Duration, as_nanos}

abbrev pub zx_time_infinite : ℕ
zx_time_infinite = u64_max

-- `zx_deadline_after` is the kernel's.
module _ (zx_deadline_after : ℕ → ℕ) where
  unfoldable pub fuchsia_convert_timeout : Option Duration → ℕ
  fuchsia_convert_timeout (some duration) =
      if ltb u64_max (as_nanos duration)
      then zx_time_infinite
      else zx_deadline_after (as_nanos duration)
  fuchsia_convert_timeout none = zx_time_infinite
