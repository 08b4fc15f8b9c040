-- ===== src/Keyed/Parker/System.antt =====
-- The thread that parks and the threads that unpark it, interleaved in any order.
use valet_parking.Prelude.{ℕ, ◌+◌, Bool, true, false, if◌then◌else◌, ◌≡◌, ◌==◌}
use valet_parking.Prelude.Family.{update}
use valet_parking.Futex.{WakeupReason, unknown}
use valet_parking.Keyed.Parker.{
  not_parked, notified, ParkPc, outside, exchanging, storing, blocked, awake, UnparkPc, idle,
  releasing, park, unpark, wait_ends,
}

-- `unparks` and `returns` count the calls of `unpark` and the returns of `park(None)`, as far as they
-- took a notification. `late` says whether releases may time out.
pub record System : Type 0 where
  pub atomic : ℕ
  pub parker : ParkPc
  pub unparker : ℕ → UnparkPc
  pub unparks : ℕ
  pub returns : ℕ
  pub late : Bool

abbrev pub init : Bool → System
init late = record {
  atomic = not_parked;
  parker = outside;
  unparker = λ _. idle;
  unparks = 0;
  returns = 0;
  late = late;
}

-- Whether the next access ends a call of `park` by a notification that it takes.
abbrev pub takes : ℕ → ParkPc → ℕ
takes a (storing timed) = 1
takes a (awake false unknown) = if a == notified then 1 else 0
takes a pc = 0

abbrev pub parks : System → System
parks s = record s {
  atomic = (park s.atomic s.parker).atomic;
  parker = (park s.atomic s.parker).pc;
  returns = s.returns + takes s.atomic s.parker;
}

abbrev pub unparks_by : ℕ → System → System
unparks_by i s = record s {
  atomic = (unpark s.atomic).atomic;
  unparker = update s.unparker i (unpark s.atomic).pc;
  unparks = s.unparks + 1;
}

-- A release meets the wait.
abbrev pub meets : ℕ → System → System
meets i s = record s { parker = wait_ends unknown s.parker; unparker = update s.unparker i idle }

-- The steps of calls that are under way.
pub data Own (s : System) : System → Type 0 where
  parking : Own s (parks s)
  meeting :
      (i : ℕ) {timed : Bool}
      → s.unparker i ≡ releasing
      → s.parker ≡ blocked timed
      → Own s (meets i s)

-- All steps but an end of the wait that no release brings about: those, new calls, and the end of a
-- release that has met no wait.
pub data Quiet (s : System) : System → Type 0 where
  own : {u : System} → Own s u → Quiet s u
  call_park : (timed : Bool) → s.parker ≡ outside → Quiet s (record s { parker = exchanging timed })
  call_unpark : (i : ℕ) → s.unparker i ≡ idle → Quiet s (unparks_by i s)
  gives_up :
      (i : ℕ)
      → s.late ≡ true
      → s.unparker i ≡ releasing
      → Quiet s (record s { unparker = update s.unparker i idle })

pub data Step (s : System) : System → Type 0 where
  quiet : {u : System} → Quiet s u → Step s u
  wait_ending : (r : WakeupReason) → Step s (record s { parker = wait_ends r s.parker })

pub data Reach (late : Bool) : System → Type 0 where
  start : Reach late (init late)
  later : {s u : System} → Reach late s → Step s u → Reach late u

-- A run of calls that are under way, with no help from outside.
pub data Run : System → System → Type 0 where
  done : (s : System) → Run s s
  next : {s u v : System} → Own s u → Run u v → Run s v

pub data QuietRun : System → System → Type 0 where
  halt : (s : System) → QuietRun s s
  go : {s u v : System} → Quiet s u → QuietRun u v → QuietRun s v
