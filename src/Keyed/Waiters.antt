-- ===== src/Keyed/Waiters.antt =====
-- src/windows.rs, the Waiters over keyed events: the reserved bits of the atomic count the threads
-- that wait. The code is cut at its accesses of the atomic and at its calls of the kernel.
pub mod System
pub mod Invariant
pub mod Safety
pub mod Agreement
pub mod Refinement
use valet_parking.Prelude.{ℕ, zero, suc, ◌+◌, ◌%◌, bit_and, Bool, true, false, ◌==◌, if◌then◌else◌}
use valet_parking.Word.{Target, usize_mod, not_usize}
use valet_parking.Reserved.{reserved_mask}

-- Where a thread stands.
pub data Pc : Type 0 where
  outside : Pc
  -- in `compare_and_wait`
  loading : (expected : ℕ) → Pc  -- before the first `load`
  trying : (expected current : ℕ) → Pc  -- head of the first loop
  entering : (expected : ℕ) → Pc  -- before `wait_for_keyed_event`
  blocked : (expected : ℕ) → Pc  -- in it, waiting for a release
  checking : (expected : ℕ) → Pc  -- after it, before the `load`
  -- in `store_and_wake`
  swapping : (new : ℕ) → Pc  -- before the `swap`
  releasing : (left : ℕ) → Pc  -- in the loop of `release_keyed_events`, with so many rounds to go

abbrev pub is_outside : Pc → Bool
is_outside outside = true
is_outside pc = false

pub record After : Type 0 where
  pub atomic : ℕ
  pub pc : Pc

module _ (t : Target) where
  abbrev pub pub_bits : ℕ → ℕ
  pub_bits a = bit_and a (not_usize t (reserved_mask t))

  -- The accesses of the atomic in `compare_and_wait`, and its call of `wait_for_keyed_event`.
  unfoldable pub compare_and_wait : ℕ → Pc → After
  compare_and_wait a (loading expected) = record { atomic = a; pc = trying expected a }
  compare_and_wait a (trying expected current) =
      if pub_bits current == expected
      then (if a == current
          then record { atomic = (current + 1) % usize_mod t; pc = entering expected }
          else record { atomic = a; pc = trying expected a })
      else record { atomic = a; pc = outside }
  compare_and_wait a (entering expected) = record { atomic = a; pc = blocked expected }
  compare_and_wait a (checking expected) = record {
    atomic = a;
    pc = if pub_bits a == expected then entering expected else outside;
  }
  compare_and_wait a pc = record { atomic = a; pc = pc }

  unfoldable pub store_and_wake : ℕ → Pc → After
  store_and_wake a (swapping new) = record {
    atomic = new;
    pc = releasing (bit_and a (reserved_mask t));
  }
  store_and_wake a pc = record { atomic = a; pc = pc }

-- A round of `release_keyed_events` is over, or the loop has ended.
unfoldable pub release_keyed_events : Pc → Pc
release_keyed_events (releasing zero) = outside
release_keyed_events (releasing (suc left)) = releasing left
release_keyed_events pc = pc

-- The end of a wait.
unfoldable pub wait_ends : Pc → Pc
wait_ends (blocked expected) = checking expected
wait_ends pc = pc
