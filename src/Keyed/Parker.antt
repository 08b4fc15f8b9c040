-- ===== src/Keyed/Parker.antt =====
-- src/windows.rs, the Parker over keyed events: one thread that parks, any number of threads that
-- unpark it. The code is cut at its accesses of the atomic and at its calls of the kernel.
pub mod System
pub mod Invariant
pub mod Safety
pub mod Missed
pub mod Refinement
use valet_parking.Prelude.{ℕ, Bool, true, false, ◌==◌, if◌then◌else◌}
use valet_parking.Futex.{WakeupReason, no_match, timed_out, interrupt, woken_up, unknown}

abbrev pub not_parked : ℕ
not_parked = 0

abbrev pub parked : ℕ
parked = 1

abbrev pub notified : ℕ
notified = 2

-- Where `park` stands. `timed` is `timeout.is_some()`.
pub data ParkPc : Type 0 where
  outside : ParkPc
  exchanging : (timed : Bool) → ParkPc  -- before the first `compare_exchange`
  storing : (timed : Bool) → ParkPc  -- before the `store` of the arm `Err(NOTIFIED)`
  entering : (timed : Bool) → ParkPc  -- before `wait_for_keyed_event`
  blocked : (timed : Bool) → ParkPc  -- in it, waiting for a release
  awake : (timed : Bool) → WakeupReason → ParkPc  -- after it
  panicked : ParkPc

abbrev pub is_outside : ParkPc → Bool
is_outside outside = true
is_outside pc = false

pub data UnparkPc : Type 0 where
  idle : UnparkPc
  releasing : UnparkPc  -- in `release_keyed_events`

pub record After (Pc : Type 0) : Type 0 where
  pub atomic : ℕ
  pub pc : Pc

-- The accesses of the atomic in `park`, and the call of `wait_for_keyed_event` at `entering`.
unfoldable pub park : ℕ → ParkPc → After ParkPc
park a (exchanging timed) =
    if a == not_parked
    then record { atomic = parked; pc = entering timed }
    else if a == notified
    then record { atomic = a; pc = storing timed }
    else record { atomic = a; pc = panicked }
park a (storing timed) = record { atomic = not_parked; pc = outside }
park a (entering timed) = record { atomic = a; pc = blocked timed }
park a (awake true r) = record { atomic = not_parked; pc = outside }
park a (awake false unknown) =
    if a == notified
    then record { atomic = not_parked; pc = outside }
    else record { atomic = a; pc = entering false }
park a (awake false r) = record { atomic = a; pc = entering false }
park a pc = record { atomic = a; pc = pc }

-- `unpark` up to its call of `release_keyed_events`.
unfoldable pub unpark : ℕ → After UnparkPc
unpark a = record { atomic = notified; pc = if a == parked then releasing else idle }

-- The end of the wait.
unfoldable pub wait_ends : WakeupReason → ParkPc → ParkPc
wait_ends r (blocked timed) = awake timed r
wait_ends r pc = pc
