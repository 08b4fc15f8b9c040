-- ===== src/Futex/Darwin.antt =====
-- src/futex/darwin.rs: the system calls `ulock_wait` and `ulock_wake`.
use valet_parking.Prelude.{ℕ, zero, suc, bit_or, Bool, ◌&&◌, Option, ◌==◌, if◌then◌else◌, ◌≢◌, not}
use valet_parking.Prelude.Int.{ℤ, pos, negsuc}
use valet_parking.Timeout.Duration.{Duration}
use valet_parking.Timeout.Counted.{darwin_convert_timeout_us}
use valet_parking.Futex.{
  WakeupReason, timed_out, interrupt, unknown, Outcome, ok, debug_assert, unexpected,
  is_nonnegative,
}

abbrev pub ul_compare_and_wait : ℕ
ul_compare_and_wait = 1

abbrev pub ulf_wake_all : ℕ
ulf_wake_all = 0x100

pub record System : Type 0 where
  pub eintr : ℕ
  pub etimedout : ℕ
  pub enoent : ℕ
  pub ulock_wait : ℕ → ℕ → ℕ → ℤ × ℕ
  pub ulock_wake : ℕ → ℕ → ℤ × ℕ

pub record IsSystem (s : System) : Type 0 where
  pub timeout_not_interrupt : s.etimedout ≢ s.eintr

module _ (debug : Bool) (s : System) where
  unfoldable pub reason : ℕ → ℤ → ℕ → Outcome WakeupReason
  reason timeout_us (pos r) errno = ok unknown
  reason timeout_us (negsuc zero) errno =
      if errno == s.eintr
      then ok interrupt
      else if errno == s.etimedout && not (timeout_us == 0)
      then ok timed_out
      else unexpected debug
  reason timeout_us (negsuc (suc r)) errno = unexpected debug

  abbrev pub answer : ℕ → Option Duration → ℤ × ℕ
  answer expected timeout =
      s.ulock_wait ul_compare_and_wait expected (darwin_convert_timeout_us timeout)

  unfoldable pub wait : ℕ → Option Duration → Outcome WakeupReason
  unfolding reason
  wait expected timeout =
      let timeout_us = darwin_convert_timeout_us timeout in
      reason timeout_us (answer expected timeout).0 (answer expected timeout).1

  -- -1 with ENOENT "means there were no threads waiting".
  is_expected : ℤ → ℕ → Bool
  is_expected (pos r) errno = r == 0
  is_expected (negsuc zero) errno = errno == s.enoent
  is_expected (negsuc (suc r)) errno = Bool.false

  unfoldable pub wake : Outcome ℕ
  unfolding is_expected
  wake =
      let (r, errno) = s.ulock_wake (bit_or ul_compare_and_wait ulf_wake_all) 0 in
      if not (is_expected r errno) then debug_assert debug (is_nonnegative r) (ok 0) else ok 0
