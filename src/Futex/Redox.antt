-- ===== src/Futex/Redox.antt =====
-- src/futex/redox.rs: the `futex` call of `redox_syscall`, which returns a `Result`.
use valet_parking.Prelude.{ℕ, Bool, ◌&&◌, Option, ◌==◌, if◌then◌else◌, ◌≢◌, false}
use valet_parking.Word.{i32_max}
use valet_parking.Timeout.Duration.{Duration}
use valet_parking.Timeout.Timespec.{Timespec, redox_convert_timeout}
use valet_parking.Futex.{
  WakeupReason, no_match, timed_out, interrupt, unknown, Outcome, ok, debug_assert, unexpected,
  is_some,
}

-- `Result<usize, Error>`.
pub data Answer : Type 0 where
  done : ℕ → Answer
  failed : (errno : ℕ) → Answer

pub record System : Type 0 where
  pub futex_wait : ℕ
  pub futex_wake : ℕ
  pub eagain : ℕ
  pub eintr : ℕ
  pub etimedout : ℕ
  pub futex : ℕ → ℕ → Option Timespec → Answer

pub record IsSystem (s : System) : Type 0 where
  pub timeout_not_again : s.etimedout ≢ s.eagain
  pub timeout_not_interrupt : s.etimedout ≢ s.eintr

module _ (debug : Bool) (s : System) where
  unfoldable pub reason : Option Timespec → Answer → Outcome WakeupReason
  reason ts (done r) = debug_assert debug (r == 0) (ok unknown)
  reason ts (failed errno) =
      if errno == s.eagain
      then ok no_match
      else if errno == s.eintr
      then ok interrupt
      else if errno == s.etimedout && is_some ts
      then ok timed_out
      else unexpected debug

  abbrev pub answer : ℕ → Option Duration → Answer
  answer expected timeout = s.futex s.futex_wait expected (redox_convert_timeout timeout)

  unfoldable pub wait : ℕ → Option Duration → Outcome WakeupReason
  unfolding reason
  wait expected timeout =
      let ts = redox_convert_timeout timeout in reason ts (answer expected timeout)

  count : Answer → Outcome ℕ
  count (done num_woken) = ok num_woken
  count (failed errno) = debug_assert debug false (ok 0)

  unfoldable pub wake : Outcome ℕ
  unfolding count
  wake = count (s.futex s.futex_wake i32_max Option.none)
