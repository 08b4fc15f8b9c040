-- ===== src/Futex/OpenBsd.antt =====
-- src/futex/openbsd.rs: `futex`, whose answer is read as an error number itself.
use Prim.Native.Nat.{max}
use valet_parking.Prelude.{ℕ, bit_or, Bool, ◌&&◌, ◌||◌, Option, ◌==◌, if◌then◌else◌, ◌≢◌, ◌<◌}
use valet_parking.Prelude.Int.{ℤ, pos, negsuc}
use valet_parking.Word.{Target, i32_max}
use valet_parking.Timeout.Duration.{Duration}
use valet_parking.Timeout.Timespec.{Timespec, openbsd_convert_timeout}
use valet_parking.Futex.{
  WakeupReason, no_match, timed_out, interrupt, unknown, Outcome, ok, debug_assert, unexpected,
  is_nonnegative, as_usize, is_some,
}

abbrev pub futex_wait : ℕ
futex_wait = 0

abbrev pub futex_wake : ℕ
futex_wake = 1

abbrev pub futex_private_flag : ℕ
futex_private_flag = 128

pub record System : Type 0 where
  pub eagain : ℕ
  pub eintr : ℕ
  pub ecanceled : ℕ
  pub etimedout : ℕ
  pub time_t_max : ℕ
  pub futex : ℕ → ℕ → Option Timespec → ℤ

-- Error numbers are positive and differ.
pub record IsSystem (s : System) : Type 0 where
  pub timeout_positive : 0 < s.etimedout
  pub timeout_not_again : s.etimedout ≢ s.eagain
  pub timeout_not_interrupt : s.etimedout ≢ s.eintr
  pub timeout_not_canceled : s.etimedout ≢ s.ecanceled

module _ (debug : Bool) (s : System) where
  unfoldable pub reason : Option Timespec → ℤ → Outcome WakeupReason
  reason ts (pos r) =
      if r == 0
      then ok unknown
      else if r == s.eagain
      then ok no_match
      else if r == s.eintr || r == s.ecanceled
      then ok interrupt
      else if r == s.etimedout && is_some ts
      then ok timed_out
      else unexpected debug
  reason ts (negsuc r) = unexpected debug

  abbrev pub answer : ℕ → Option Duration → ℤ
  answer expected timeout =
      s.futex (bit_or futex_wait futex_private_flag) expected
        (openbsd_convert_timeout s.time_t_max timeout)

  unfoldable pub wait : ℕ → Option Duration → Outcome WakeupReason
  unfolding reason
  wait expected timeout =
      let ts = openbsd_convert_timeout s.time_t_max timeout in reason ts (answer expected timeout)

  unfoldable pub wake : Target → Outcome ℕ
  wake t =
      let r = s.futex (bit_or futex_wake futex_private_flag) i32_max Option.none in
      debug_assert debug (is_nonnegative r) (ok (max (as_usize t r) 0))
