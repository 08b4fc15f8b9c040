-- ===== src/Futex/Windows.antt =====
-- src/futex/windows.rs: `WaitOnAddress` and `WakeByAddressAll`, if the backend has them.
use valet_parking.Prelude.{ℕ, Bool, true, false, Option, ◌==◌, if◌then◌else◌, not, ◌&&◌}
use valet_parking.Timeout.Duration.{Duration}
use valet_parking.Timeout.Counted.{infinite, windows_convert_timeout_ms}
use valet_parking.Futex.{WakeupReason, timed_out, unknown, Outcome, ok, panic, unexpected}

-- src/windows.rs, `WaitAddress`: value, size of the integer and milliseconds to the returned BOOL
-- and the last error.
pub record WaitAddress : Type 0 where
  pub wait_on_address : ℕ → ℕ → ℕ → Bool × ℕ

-- src/windows.rs, `Backend`. What a keyed event is made of does not matter here.
pub data Backend : Type 0 where
  missing : Backend
  wait_address : WaitAddress → Backend
  keyed_event : Backend

module _ (debug : Bool) (error_timeout : ℕ) where
  unfoldable pub reason : ℕ → Bool → ℕ → Outcome WakeupReason
  reason ms true last_error = ok unknown
  reason ms false last_error =
      if last_error == error_timeout && not (ms == infinite) then ok timed_out else unexpected debug

  unfoldable pub wait : Backend → (size expected : ℕ) → Option Duration → Outcome WakeupReason
  unfolding reason
  wait (wait_address f) size expected timeout =
      let ms = windows_convert_timeout_ms timeout in
      let (r, last_error) = f.wait_on_address expected size ms in reason ms r last_error
  wait _ size expected timeout = panic

unfoldable pub wake : Backend → Outcome ℕ
wake (wait_address f) = ok 0
wake _ = panic
