-- ===== src/FutexParker.antt =====
-- src/futex/mod.rs, the Parker: one thread that parks, any number of threads that unpark it, on an
-- `AtomicI32`. The code is cut at its accesses of the atomic and at its calls of the kernel; every
-- access is one step, whatever its memory ordering.
pub mod System
pub mod Invariant
pub mod Safety
pub mod Refinement
mod Examples
use valet_parking.Prelude.{ℕ, Bool, true, false, ◌||◌, ◌==◌, if◌then◌else◌}

abbrev pub not_parked : ℕ
not_parked = 0

abbrev pub parked : ℕ
parked = 1

abbrev pub notified : ℕ
notified = 2

-- Where `park` stands. `timed` is `timeout.is_some()`.
pub data ParkPc : Type 0 where
  outside : ParkPc  -- not in `park`
  exchanging : (timed : Bool) → ParkPc  -- before the `compare_exchange`
  storing : (timed : Bool) → ParkPc  -- before the `store` of the arm `Err(NOTIFIED)`
  waiting : (timed : Bool) → ParkPc  -- in `wait`, before the kernel compares the value
  asleep : (timed : Bool) → ParkPc  -- in `wait`, in the queue of the kernel
  swapping : (timed : Bool) → ParkPc  -- before the `swap`
  panicked : ParkPc

abbrev pub is_outside : ParkPc → Bool
is_outside outside = true
is_outside pc = false

pub data UnparkPc : Type 0 where
  idle : UnparkPc  -- not in `unpark`
  waking : UnparkPc  -- before the call of `wake`

-- What one access leaves behind: the value of the atomic, and where the thread stands.
pub record After (Pc : Type 0) : Type 0 where
  pub atomic : ℕ
  pub pc : Pc

-- The next access of the thread in `park`. At `waiting` it is the comparison in the kernel.
unfoldable pub park : ℕ → ParkPc → After ParkPc
park a (exchanging timed) =
    if a == not_parked
    then record { atomic = parked; pc = waiting timed }
    else if a == notified
    then record { atomic = a; pc = storing timed }
    else record { atomic = a; pc = panicked }
park a (storing timed) = record { atomic = not_parked; pc = outside }
park a (waiting timed) = record {
  atomic = a;
  pc = if a == parked then asleep timed else swapping timed;
}
park a (swapping timed) = record {
  atomic = not_parked;
  pc = if a == notified || timed then outside else exchanging timed;
}
park a outside = record { atomic = a; pc = outside }
park a (asleep timed) = record { atomic = a; pc = asleep timed }
park a panicked = record { atomic = a; pc = panicked }

-- `unpark` up to its call of `wake`.
unfoldable pub unpark : ℕ → After UnparkPc
unpark a = record { atomic = notified; pc = if a == parked then waking else idle }

-- `wake` takes the thread out of the kernel's queue, if it is there.
unfoldable pub woken : ParkPc → ParkPc
woken (asleep timed) = swapping timed
woken pc = pc

-- `wait` may end for no reason at all, by an interrupt or, if there is one, by the timeout.
unfoldable pub ends_early : ParkPc → ParkPc
ends_early (asleep timed) = swapping timed
ends_early (waiting timed) = swapping timed
ends_early pc = pc
