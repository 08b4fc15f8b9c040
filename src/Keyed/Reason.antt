-- ===== src/Keyed/Reason.antt =====
-- The reasons that waits on Windows are said to have ended for, with either primitive.
use valet_parking.Prelude.{ℕ, ◌≡◌, ◌≢◌, ◌↔◌, Bool, false, Option, arith, ◌^◌, ◌-◌}
use valet_parking.Timeout.Duration.{Duration, IsTimeout, rounded, forever}
use valet_parking.Timeout.Signed.{convert_timeout_100ns}
use valet_parking.Timeout.Rounding.{nt_rounded}
use valet_parking.Futex.{timed_out, ok}
use valet_parking.Futex.Windows
use valet_parking.Futex.Reasons.{windows_timed_out}
use valet_parking.Timeout.Counted.{windows_convert_timeout_ms}
use valet_parking.Word.{u32_max}
use valet_parking.Keyed.{Api, wait_for_keyed_event}

pub keyed_timed_out :
    (debug : Bool) (api : Api) (timeout : Option Duration)
    → IsTimeout timeout
    → api.status_timeout ≢ api.status_success
    → (wait_for_keyed_event debug api timeout ≡ ok timed_out) ↔ (
        (api.nt_wait_for_keyed_event (convert_timeout_100ns timeout) ≡ api.status_timeout)
        × (rounded 100 (2 ^ 63) timeout ≢ forever))
unfolding wait_for_keyed_event
keyed_timed_out debug api timeout fits distinct = ground (arith, nt_rounded timeout fits)

-- On Windows, wait over WaitOnAddress reports TimedOut exactly when that call failed with
-- ERROR_TIMEOUT and the timeout amounts to a limit; and, if STATUS_TIMEOUT differs from
-- STATUS_SUCCESS, wait_for_keyed_event reports it exactly when NtWaitForKeyedEvent answered
-- STATUS_TIMEOUT and the timeout amounts to a limit.
pub windows_reports_timeout :
    (debug : Bool) (expected : ℕ) (timeout : Option Duration) (error_timeout size : ℕ)
    → (f : Windows.WaitAddress) (api : Api) → IsTimeout timeout
    → api.status_timeout ≢ api.status_success
    → ((Windows.wait debug error_timeout (Windows.wait_address f) size expected timeout
          ≡ ok timed_out)
        ↔ ((f.wait_on_address expected size (windows_convert_timeout_ms timeout)
              ≡ (false, error_timeout))
            × (rounded 1_000_000 (u32_max - 1) timeout ≢ forever)))
      × ((wait_for_keyed_event debug api timeout ≡ ok timed_out) ↔ (
          (api.nt_wait_for_keyed_event (convert_timeout_100ns timeout) ≡ api.status_timeout)
          × (rounded 100 (2 ^ 63) timeout ≢ forever)))
windows_reports_timeout debug expected timeout error_timeout size f api fits distinct = (
  windows_timed_out debug expected timeout fits error_timeout size f,
  keyed_timed_out debug api timeout fits distinct,
)
