-- ===== src/Futex/Linux.antt =====
-- src/futex/linux.rs: the `futex` system call of Linux and Android.
use Prim.Native.Nat.{max}
use valet_parking.Prelude.{ℕ, zero, suc, bit_or, Bool, ◌&&◌, Option, ◌==◌, if◌then◌else◌, ◌≢◌}
use valet_parking.Prelude.Int.{ℤ, pos, negsuc}
use valet_parking.Word.{Target, i32_max}
use valet_parking.Timeout.Duration.{Duration}
use valet_parking.Timeout.Timespec.{Timespec, linux_convert_timeout}
use valet_parking.Futex.{
  WakeupReason, no_match, timed_out, interrupt, unknown, Outcome, ok, debug_assert, unexpected,
  is_nonnegative, as_usize, is_some,
}

-- What `libc` supplies, and the kernel: operation, value and timeout to the returned value and
-- `errno`.
pub record System : Type 0 where
  pub futex_wait : ℕ
  pub futex_wake : ℕ
  pub futex_private_flag : ℕ
  pub eagain : ℕ
  pub eintr : ℕ
  pub etimedout : ℕ
  pub time_t_max : ℕ
  pub futex : ℕ → ℕ → Option Timespec → ℤ × ℕ

-- The error numbers differ.
pub record IsSystem (s : System) : Type 0 where
  pub timeout_not_again : s.etimedout ≢ s.eagain
  pub timeout_not_interrupt : s.etimedout ≢ s.eintr

module _ (debug : Bool) (s : System) where
  unfoldable pub reason : Option Timespec → ℤ → ℕ → Outcome WakeupReason
  reason ts (pos zero) errno = ok unknown
  reason ts (pos (suc r)) errno = unexpected debug
  reason ts (negsuc zero) errno =
      if errno == s.eagain
      then ok no_match
      else if errno == s.eintr
      then ok interrupt
      else if errno == s.etimedout && is_some ts
      then ok timed_out
      else unexpected debug
  reason ts (negsuc (suc r)) errno = unexpected debug

  abbrev pub answer : ℕ → Option Duration → ℤ × ℕ
  answer expected timeout =
      s.futex (bit_or s.futex_wait s.futex_private_flag) expected
        (linux_convert_timeout s.time_t_max timeout)

  unfoldable pub wait : ℕ → Option Duration → Outcome WakeupReason
  unfolding reason
  wait expected timeout =
      let ts = linux_convert_timeout s.time_t_max timeout in
      reason ts (answer expected timeout).0 (answer expected timeout).1

  -- `cmp::max(r as usize, 0)`.
  unfoldable pub wake : Target → Outcome ℕ
  wake t =
      let r = (s.futex (bit_or s.futex_wake s.futex_private_flag) i32_max Option.none).0 in
      debug_assert debug (is_nonnegative r) (ok (max (as_usize t r) 0))
