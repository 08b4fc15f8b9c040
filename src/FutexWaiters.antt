-- ===== src/FutexWaiters.antt =====
-- src/futex/mod.rs, the Waiters over a futex: any number of threads that wait on one atomic, of which
-- the kernel compares 32 bits. The code is cut at its accesses of the atomic and at its calls of the
-- kernel.
pub mod System
pub mod Words
pub mod Invariant
pub mod Steps
pub mod Safety
pub mod Progress
pub mod Agreement
pub mod Comparing
pub mod Refinement
mod Examples
use valet_parking.Prelude.{
  ℕ, ◌*◌, ◌/◌, ◌%◌, ◌^◌, bit_and, bit_or, Bool, true, false, ◌==◌, if◌then◌else◌,
}
use valet_parking.Word.{Target, not_usize}
use valet_parking.Reserved.{reserved_mask}

-- Where a thread stands.
pub data Pc : Type 0 where
  outside : Pc
  -- in `compare_and_wait`
  marking : (expected : ℕ) → Pc  -- before the first `compare_and_swap`
  waiting : (expected : ℕ) → Pc  -- in `wait`, before the kernel compares the value
  asleep : (expected : ℕ) → Pc  -- in `wait`, in the queue of the kernel
  checking : (expected : ℕ) → Pc  -- before the second `compare_and_swap`
  -- in `store_and_wake`
  storing : (new : ℕ) → Pc  -- before the `swap`
  waking : Pc  -- before the call of `wake`

abbrev pub is_outside : Pc → Bool
is_outside outside = true
is_outside pc = false

pub record After : Type 0 where
  pub atomic : ℕ
  pub pc : Pc

-- The three values that the source gives it, by the width and the byte order.
abbrev pub uncompared_lo_bits : Target → ℕ
uncompared_lo_bits t = if t.usize_bytes == 8 then (if t.big_endian then 32 else 0) else 0

module _ (t : Target) where
  abbrev pub has_waiters : ℕ
  has_waiters = 1 * 2 ^ uncompared_lo_bits t

  abbrev pub pub_bits : ℕ → ℕ
  pub_bits a = bit_and a (not_usize t (reserved_mask t))

  -- What a load of 32 bits reads at the address of the atomic.
  abbrev pub get_i32_ref : ℕ → ℕ
  get_i32_ref a =
      if t.usize_bytes == 8 then (if t.big_endian then a / 2 ^ 32 else a % 2 ^ 32) else a

  -- The value that `wait` is given, as the 32 bits that it is.
  abbrev pub compared : (expected : ℕ) → ℕ
  compared expected = bit_or expected has_waiters / 2 ^ uncompared_lo_bits t % 2 ^ 32

  -- The accesses of the atomic in `compare_and_wait`. At `waiting` it is the comparison in the kernel.
  unfoldable pub compare_and_wait : ℕ → Pc → After
  compare_and_wait a (marking expected) = record {
    atomic = if a == expected then bit_or expected has_waiters else a;
    pc = if pub_bits a == expected then waiting expected else outside;
  }
  compare_and_wait a (waiting expected) = record {
    atomic = a;
    pc = if get_i32_ref a == compared expected then asleep expected else checking expected;
  }
  compare_and_wait a (checking expected) = record {
    atomic = a;
    pc = if a == bit_or expected has_waiters then waiting expected else outside;
  }
  compare_and_wait a pc = record { atomic = a; pc = pc }

  unfoldable pub store_and_wake : ℕ → Pc → After
  store_and_wake a (storing new) = record {
    atomic = new;
    pc = if bit_and a has_waiters == has_waiters then waking else outside;
  }
  store_and_wake a pc = record { atomic = a; pc = pc }

-- `wake` takes every thread out of the kernel's queue.
unfoldable pub woken : Pc → Pc
woken (asleep expected) = checking expected
woken pc = pc

-- `wait` may end for no reason at all, or by an interrupt.
unfoldable pub ends_early : Pc → Pc
ends_early (asleep expected) = checking expected
ends_early (waiting expected) = checking expected
ends_early pc = pc
