-- ===== src/Futex/FreeBsd.antt =====
-- src/futex/freebsd.rs: `_umtx_op`.
use Prim.Native.Nat.{max}
use valet_parking.Prelude.{ℕ, zero, suc, Bool, ◌&&◌, Option, ◌==◌, if◌then◌else◌, ◌≢◌}
use valet_parking.Prelude.Int.{ℤ, pos, negsuc}
use valet_parking.Word.{Target, i32_max}
use valet_parking.Timeout.Duration.{Duration}
use valet_parking.Timeout.Timespec.{UmtxTime, freebsd_convert_timeout}
use valet_parking.Futex.{
  WakeupReason, timed_out, interrupt, unknown, Outcome, ok, debug_assert, unexpected,
  is_nonnegative, as_usize, is_some,
}

abbrev pub umtx_op_wait_uint_private : ℕ
umtx_op_wait_uint_private = 15

abbrev pub umtx_op_wake_private : ℕ
umtx_op_wake_private = 16

-- `libc`, and the kernel: operation, value, the size given in `uaddr` and the timeout in `uaddr2`.
pub record System : Type 0 where
  pub eintr : ℕ
  pub etimedout : ℕ
  pub time_t_max : ℕ
  pub clock_monotonic : ℕ
  pub size_of_umtx_time : ℕ
  pub umtx_op : ℕ → ℕ → ℕ → Option UmtxTime → ℤ × ℕ

pub record IsSystem (s : System) : Type 0 where
  pub timeout_not_interrupt : s.etimedout ≢ s.eintr

module _ (debug : Bool) (s : System) where
  unfoldable pub reason : Option UmtxTime → ℤ → ℕ → Outcome WakeupReason
  reason ts (pos zero) errno = ok unknown
  reason ts (pos (suc r)) errno = unexpected debug
  reason ts (negsuc zero) errno =
      if errno == s.eintr
      then ok interrupt
      else if errno == s.etimedout && is_some ts
      then ok timed_out
      else unexpected debug
  reason ts (negsuc (suc r)) errno = unexpected debug

  abbrev pub answer : ℕ → Option Duration → ℤ × ℕ
  answer expected timeout =
      s.umtx_op umtx_op_wait_uint_private expected s.size_of_umtx_time
        (freebsd_convert_timeout s.time_t_max s.clock_monotonic timeout)

  unfoldable pub wait : ℕ → Option Duration → Outcome WakeupReason
  unfolding reason
  wait expected timeout =
      let ts = freebsd_convert_timeout s.time_t_max s.clock_monotonic timeout in
      reason ts (answer expected timeout).0 (answer expected timeout).1

  unfoldable pub wake : Target → Outcome ℕ
  wake t =
      let r = (s.umtx_op umtx_op_wake_private i32_max 0 Option.none).0 in
      debug_assert debug (is_nonnegative r) (ok (max (as_usize t r) 0))
