-- ===== src/Futex/DragonFly.antt =====
-- src/futex/dragonfly.rs: `umtx_sleep` and `umtx_wakeup`. The arm for 0 lacks its `Ok`, without
-- which the source does not type-check; it is modelled as `Ok(WakeupReason::Unknown)`.
use Prim.Native.Nat.{max}
use valet_parking.Prelude.{ℕ, zero, suc, Bool, Option, ◌==◌, if◌then◌else◌}
use valet_parking.Prelude.Int.{ℤ, pos, negsuc}
use valet_parking.Word.{Target}
use valet_parking.Timeout.Duration.{Duration}
use valet_parking.Timeout.Counted.{dragonfly_convert_timeout_us}
use valet_parking.Futex.{
  WakeupReason, no_match, interrupt, unknown, Outcome, ok, debug_assert, unexpected, is_nonnegative,
  as_usize,
}

pub record System : Type 0 where
  pub ebusy : ℕ
  pub eintr : ℕ
  pub ewouldblock : ℕ
  pub umtx_sleep : ℕ → ℕ → ℤ × ℕ
  pub umtx_wakeup : ℕ → ℤ

module _ (debug : Bool) (s : System) where
  unfoldable pub reason : ℤ → ℕ → Outcome WakeupReason
  reason (pos zero) errno = ok unknown
  reason (pos (suc r)) errno = unexpected debug
  reason (negsuc zero) errno =
      if errno == s.ebusy
      then ok no_match
      else if errno == s.eintr
      then ok interrupt
      else if errno == s.ewouldblock
      then ok unknown
      else unexpected debug
  reason (negsuc (suc r)) errno = unexpected debug

  unfoldable pub wait : ℕ → Option Duration → Outcome WakeupReason
  unfolding reason
  wait expected timeout =
      let (r, errno) = s.umtx_sleep expected (dragonfly_convert_timeout_us timeout) in
      reason r errno

  unfoldable pub wake : Target → Outcome ℕ
  wake t =
      let r = s.umtx_wakeup 0 in debug_assert debug (is_nonnegative r) (ok (max (as_usize t r) 0))
