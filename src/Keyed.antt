-- ===== src/Keyed.antt =====
-- src/windows.rs, Waiters and Parker over NT keyed events. A wait on a key ends when a release on that
-- key meets it; a release blocks until it meets a wait, or until 100 microseconds are over.
pub mod Parker
pub mod Waiters
pub mod Reason
mod Examples
use valet_parking.Prelude.{
  ℕ, Bool, true, false, ◌==◌, ◌&&◌, ◌||◌, if◌then◌else◌, Option, none, some,
}
use valet_parking.Prelude.Int.{ℤ}
use valet_parking.Timeout.Duration.{Duration}
use valet_parking.Timeout.Signed.{convert_timeout_100ns}
use valet_parking.Futex.{WakeupReason, timed_out, interrupt, unknown, Outcome, ok, debug_assert}

-- `NtWaitForKeyedEvent`, from the timeout, or the null pointer, to its status; and the statuses.
pub record Api : Type 0 where
  pub nt_wait_for_keyed_event : Option ℤ → ℕ
  pub status_success : ℕ
  pub status_timeout : ℕ
  pub status_alerted : ℕ
  pub status_user_apc : ℕ

abbrev pub is_some : Option ℤ → Bool
is_some none = false
is_some (some x) = true

unfoldable pub wait_for_keyed_event : (debug : Bool) → Api → Option Duration → Outcome WakeupReason
wait_for_keyed_event debug api timeout =
    let nt_timeout = convert_timeout_100ns timeout in
    let r = api.nt_wait_for_keyed_event nt_timeout in
    if r == api.status_success
    then ok unknown
    else if r == api.status_timeout && is_some nt_timeout
    then ok timed_out
    else if r == api.status_alerted || r == api.status_user_apc
    then ok interrupt
    else debug_assert debug false (ok unknown)
