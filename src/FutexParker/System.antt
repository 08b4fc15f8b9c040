-- ===== src/FutexParker/System.antt =====
-- The thread that parks and the threads that unpark it, interleaved in any order.
use valet_parking.Prelude.{ℕ, ◌+◌, Bool, false, if◌then◌else◌, ◌≡◌, ◌==◌}
use valet_parking.Prelude.Family.{update}
use valet_parking.FutexParker.{
  not_parked, notified, ParkPc, outside, exchanging, storing, swapping, UnparkPc, idle, waking,
  park, unpark, woken, ends_early,
}

-- `unparks` and `returns` are no part of the program: they count the calls of `unpark`, and the
-- returns of `park(None)`.
pub record System : Type 0 where
  pub atomic : ℕ
  pub parker : ParkPc
  pub unparker : ℕ → UnparkPc
  pub unparks : ℕ
  pub returns : ℕ

-- `Parker::new(0)`.
abbrev pub init : System
init = record {
  atomic = not_parked;
  parker = outside;
  unparker = λ _. idle;
  unparks = 0;
  returns = 0;
}

-- Whether the next access ends a call of `park(None)`.
abbrev pub ends_untimed : ℕ → ParkPc → ℕ
ends_untimed a (storing false) = 1
ends_untimed a (swapping false) = if a == notified then 1 else 0
ends_untimed a _ = 0

abbrev pub parks : System → System
parks s = record s {
  atomic = (park s.atomic s.parker).atomic;
  parker = (park s.atomic s.parker).pc;
  returns = s.returns + ends_untimed s.atomic s.parker;
}

abbrev pub unparks_by : ℕ → System → System
unparks_by i s = record s {
  atomic = (unpark s.atomic).atomic;
  unparker = update s.unparker i (unpark s.atomic).pc;
  unparks = s.unparks + 1;
}

abbrev pub wakes_by : ℕ → System → System
wakes_by i s = record s { parker = woken s.parker; unparker = update s.unparker i idle }

-- The steps of calls that are under way.
pub data Own (s : System) : System → Type 0 where
  parking : Own s (parks s)
  waking_up : (i : ℕ) → s.unparker i ≡ waking → Own s (wakes_by i s)

-- All steps: those, new calls, and the early end of a wait.
pub data Step (s : System) : System → Type 0 where
  own : {t : System} → Own s t → Step s t
  call_park : (timed : Bool) → s.parker ≡ outside → Step s (record s { parker = exchanging timed })
  call_unpark : (i : ℕ) → s.unparker i ≡ idle → Step s (unparks_by i s)
  early_end : Step s (record s { parker = ends_early s.parker })

pub data Reach : System → Type 0 where
  start : Reach init
  later : {s t : System} → Reach s → Step s t → Reach t

-- A run of calls that are under way, with no help from outside.
pub data Run : System → System → Type 0 where
  done : (s : System) → Run s s
  next : {s t u : System} → Own s t → Run t u → Run s u
