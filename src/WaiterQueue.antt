-- ===== src/WaiterQueue.antt =====
-- src/waiter_queue.rs, the list of waiting threads that hangs on an atomic, and the front end of
-- `Waiters` in src/lib.rs. Every waiter is a node on the stack of its thread. The code is cut at its
-- accesses of the atomic, of a node, and at its calls of the Parker in the node.
pub mod System
pub mod Chain
pub mod Invariant
pub mod Words
pub mod Moves
pub mod Handover
pub mod Taking
pub mod Unparking
pub mod Steps
pub mod Safety
pub mod Woken
pub mod Progress
pub mod RoundTrip
pub mod Agreement
pub mod Refinement
mod Examples
use valet_parking.Prelude.{ℕ, bit_and, bit_or, Bool, true, false, ◌==◌, if◌then◌else◌}
use valet_parking.Word.{Target, not_usize, shl_usize, shr_usize}
use valet_parking.Reserved.{free_bits, reserved_mask}

-- Where a thread stands. The node of a waiting thread is part of it: its address, its field `next`,
-- and whether its Parker has been unparked.
pub data Pc : Type 0 where
  outside : Pc
  -- in `compare_and_wait`
  loading : (expected : ℕ) → Pc  -- before the first `load`
  trying : (expected current : ℕ) → Pc  -- head of the loop
  waiting : (expected node next : ℕ) (unparked : Bool) → Pc  -- in `node.parker.park`
  reloading : (expected : ℕ) → Pc  -- after it, before the `load`
  -- in `store_and_wake`
  swapping : (new : ℕ) → Pc  -- before the `swap`
  walking : (next : ℕ) → Pc  -- head of the loop
  unparking : (current next : ℕ) → Pc  -- before `unpark`

abbrev pub is_outside : Pc → Bool
is_outside outside = true
is_outside pc = false

pub record After : Type 0 where
  pub atomic : ℕ
  pub pc : Pc

module _ (t : Target) where
  abbrev pub pub_bits : ℕ → ℕ
  pub_bits a = bit_and a (not_usize t (reserved_mask t))

  -- `(a & RESERVED_MASK) << FREE_BITS`.
  abbrev pub first : ℕ → ℕ
  first a = shl_usize t (bit_and a (reserved_mask t)) free_bits

  -- The accesses of the atomic in `compare_and_wait`; a node that is made lies at `node`.
  unfoldable pub compare_and_wait : (node : ℕ) → ℕ → Pc → After
  compare_and_wait node a (loading expected) = record { atomic = a; pc = trying expected a }
  compare_and_wait node a (trying expected current) =
      if pub_bits current == expected
      then (if a == current
          then record {
            atomic = bit_or (pub_bits current) (shr_usize node free_bits);
            pc = waiting expected node (first current) false;
          }
          else record { atomic = a; pc = trying expected a })
      else record { atomic = a; pc = outside }
  compare_and_wait node a (reloading expected) = record { atomic = a; pc = trying expected a }
  compare_and_wait node a pc = record { atomic = a; pc = pc }

  -- `store_and_wake` up to the loop.
  unfoldable pub store_and_wake : ℕ → Pc → After
  store_and_wake a (swapping new) = record { atomic = new; pc = walking (first a) }
  store_and_wake a pc = record { atomic = a; pc = pc }

-- The head of its loop, where `field` is what `(*current).next` reads.
unfoldable pub walk : (field : ℕ) → Pc → Pc
walk field (walking next) = if next == 0 then outside else unparking next field
walk field pc = pc

-- `unpark` on the Parker of a node. `park` in the thread returns once it has been called.
unfoldable pub unpark : Pc → Pc
unpark (waiting expected node next unparked) = waiting expected node next true
unpark pc = pc
