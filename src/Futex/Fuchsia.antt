-- ===== src/Futex/Fuchsia.antt =====
-- src/futex/fuchsia.rs: `zx_futex_wait` and `zx_futex_wake`, with their status codes.
use valet_parking.Prelude.{ℕ, Bool, Option, ◌==◌, if◌then◌else◌, not, ◌&&◌}
use valet_parking.Prelude.Int.{ℤ, pos, negsuc}
use valet_parking.Word.{u32_max}
use valet_parking.Timeout.Duration.{Duration}
use valet_parking.Timeout.Deadline.{zx_time_infinite, fuchsia_convert_timeout}
use valet_parking.Futex.{
  WakeupReason, no_match, timed_out, unknown, Outcome, ok, debug_assert, unexpected,
}

-- A negative status is `negsuc`: ZX_ERR_BAD_STATE is -20 and ZX_ERR_TIMED_OUT is -21.
abbrev pub bad_state : ℕ
bad_state = 19

abbrev pub timed_out_status : ℕ
timed_out_status = 20

pub record System : Type 0 where
  pub zx_deadline_after : ℕ → ℕ
  pub zx_futex_wait : ℕ → ℕ → ℤ
  pub zx_futex_wake : ℕ → ℤ

abbrev pub is_ok : ℤ → Bool
is_ok (pos n) = n == 0
is_ok (negsuc n) = Bool.false

module _ (debug : Bool) (s : System) where
  unfoldable pub reason : ℕ → ℤ → Outcome WakeupReason
  reason deadline (pos r) = if r == 0 then ok unknown else unexpected debug
  reason deadline (negsuc r) =
      if r == bad_state
      then ok no_match
      else if r == timed_out_status && not (deadline == zx_time_infinite)
      then ok timed_out
      else unexpected debug

  abbrev pub answer : ℕ → Option Duration → ℤ
  answer expected timeout =
      s.zx_futex_wait expected (fuchsia_convert_timeout s.zx_deadline_after timeout)

  unfoldable pub wait : ℕ → Option Duration → Outcome WakeupReason
  unfolding reason
  wait expected timeout =
      let deadline = fuchsia_convert_timeout s.zx_deadline_after timeout in
      reason deadline (answer expected timeout)

  unfoldable pub wake : Outcome ℕ
  wake = debug_assert debug (is_ok (s.zx_futex_wake u32_max)) (ok 0)
