-- ===== src/Keyed/Parker/Missed.antt =====
-- What follows a release that has timed out before the thread waits for it.
use valet_parking.Prelude.{ℕ, ◌≡◌, ◌≢◌, arith, Bool}
use valet_parking.Keyed.Parker.{notified, blocked, releasing, park, unpark}
use valet_parking.Keyed.Parker.System.{
  System, Own, parking, meeting, Quiet, own, call_park, call_unpark, gives_up, QuietRun, halt, go,
}

-- The thread waits for a release, it has been notified, and there is no release.
pub record IsMissed (s : System) (timed : Bool) : Type 0 where
  pub waits : s.parker ≡ blocked timed
  pub told : s.atomic ≡ notified
  pub nobody : (i : ℕ) → s.unparker i ≢ releasing

Own-IsMissed : {s u : System} {timed : Bool} → Own s u → IsMissed s timed → IsMissed u timed
unfolding park
Own-IsMissed parking m = record { waits = ground arith; told = ground arith; nobody = m.nobody }
Own-IsMissed (meeting i e f) m = absurd (m.nobody i e)

Quiet-IsMissed : {s u : System} {timed : Bool} → Quiet s u → IsMissed s timed → IsMissed u timed
unfolding unpark
Quiet-IsMissed (own o) m = Own-IsMissed o m
Quiet-IsMissed (call_park timed e) m = absurd (ground arith)
Quiet-IsMissed (call_unpark i e) m = record {
  waits = m.waits;
  told = ground arith;
  nobody = λ j x. ground (arith, x, m.nobody j);
}
Quiet-IsMissed (gives_up i l e) m = absurd (m.nobody i e)

-- If the parking thread waits on the key, the atomic is NOTIFIED and no release is under way,
-- then after any run of steps in which no wait ends on its own, later calls of unpark included,
-- the thread still waits.
pub missed_park_never_returns :
    {s u : System} (timed : Bool) → IsMissed s timed → QuietRun s u → u.parker ≡ blocked timed
missed_park_never_returns timed m (halt s) = m.waits
missed_park_never_returns timed m (go step run) =
    missed_park_never_returns timed (Quiet-IsMissed step m) run
