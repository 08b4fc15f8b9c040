-- ===== src/Futex/Wasm.antt =====
-- src/futex/wasm_atomic.rs: the instructions `i32.atomic.wait` and `atomic.notify`.
use valet_parking.Prelude.{ℕ, Bool, Option, ◌==◌, if◌then◌else◌}
use valet_parking.Prelude.Int.{ℤ, pos, negsuc}
use valet_parking.Word.{u32_max}
use valet_parking.Timeout.Duration.{Duration}
use valet_parking.Timeout.Signed.{wasm_convert_timeout}
use valet_parking.Futex.{WakeupReason, no_match, timed_out, woken_up, Outcome, ok, unexpected}

pub record System : Type 0 where
  pub i32_atomic_wait : ℕ → ℤ → ℤ
  pub atomic_notify : ℕ → ℕ

module _ (debug : Bool) (s : System) where
  unfoldable pub reason : ℤ → Outcome WakeupReason
  reason (pos r) =
      if r == 0
      then ok woken_up
      else if r == 1
      then ok no_match
      else if r == 2
      then ok timed_out
      else unexpected debug
  reason (negsuc r) = unexpected debug

  unfoldable pub wait : ℕ → Option Duration → Outcome WakeupReason
  unfolding reason
  wait expected timeout =
      let timeout_ns = wasm_convert_timeout timeout in
      reason (s.i32_atomic_wait expected timeout_ns)

  unfoldable pub wake : Outcome ℕ
  wake = ok (s.atomic_notify u32_max)
