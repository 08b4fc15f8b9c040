-- ===== src/Futex.antt =====
-- src/futex/mod.rs, the trait `Futex`, and its implementation for each system in the children. The
-- kernel is a parameter of each: a function from the arguments of the call to its answer.
pub mod Linux
pub mod FreeBsd
pub mod OpenBsd
pub mod Redox
pub mod Fuchsia
pub mod Wasm
pub mod Darwin
pub mod DragonFly
pub mod Windows
pub mod Reasons
pub mod WakeCount
mod Examples
use valet_parking.Prelude.{ℕ, ◌+◌, ◌-◌, ◌^◌, Bool, true, false, Option, if◌then◌else◌}
use valet_parking.Prelude.Int.{ℤ, pos, negsuc}
use valet_parking.Word.{Target, usize_mod}
use valet_parking.Timeout.Duration.{Duration}

pub data WakeupReason : Type 0 where
  no_match timed_out interrupt woken_up unknown : WakeupReason

-- `Result<A, ()>`, or a panic.
pub data Outcome {ℓ} (A : Type ℓ) : Type ℓ where
  ok : A → Outcome A
  err : Outcome A
  panic : Outcome A

-- The default methods of the trait.
unfoldable pub default_wait : ℕ → Option Duration → Outcome WakeupReason
default_wait expected timeout = err

unfoldable pub default_wake : Outcome ℕ
default_wake = err

-- `debug_assert!(test); rest`, with `debug` for `cfg(debug_assertions)`.
abbrev pub debug_assert {ℓ} : {A : Type ℓ} → Bool → Bool → Outcome A → Outcome A
debug_assert true false rest = panic
debug_assert true true rest = rest
debug_assert false test rest = rest

-- An answer that the source does not expect.
abbrev pub unexpected : Bool → Outcome WakeupReason
unexpected debug = debug_assert debug false (ok unknown)

abbrev pub is_nonnegative : ℤ → Bool
is_nonnegative (pos n) = true
is_nonnegative (negsuc n) = false

-- `r as usize` of a signed number: sign extension.
abbrev pub as_usize : Target → ℤ → ℕ
as_usize t (pos n) = n
as_usize t (negsuc n) = usize_mod t - 1 - n

abbrev pub is_some {ℓ} : {A : Type ℓ} → Option A → Bool
is_some Option.none = false
is_some (Option.some a) = true
