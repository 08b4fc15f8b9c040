-- ===== src/Keyed/Parker/Refinement.antt =====
-- The Parker over keyed events against the contract of `Parker`.
use valet_parking.Prelude.{
  ℕ, Bool, true, false, ◌==◌, List, [], Option, none, some, ◌≡◌, ◌≢◌, ◌≤◌, refl, arith, Bool-cases,
  inl, inr,
}
use valet_parking.Futex.{WakeupReason, no_match, timed_out, interrupt, woken_up, unknown}
use valet_parking.Keyed.Parker.{
  not_parked, parked, notified, ParkPc, outside, exchanging, storing, entering, blocked, awake,
  panicked, After, is_outside, park, unpark, wait_ends,
}
use valet_parking.Keyed.Parker.System.{
  System, Own, parking, meeting, own, call_park, call_unpark, gives_up, Step, quiet, wait_ending,
  Reach, start, later, init,
}
use valet_parking.Keyed.Parker.Invariant.{Agrees, Reach-Inv}
use valet_parking.Keyed.Parker.Safety.{keyed_park_is_safe}
use valet_parking.Contract.Parker as Contract
use valet_parking.Contract.Parker.{Event, follows, Traced, returned, takes_token, ends_timed}

-- What a caller sees of a step.
abbrev pub seen_own : {s u : System} → Own s u → Option Event
seen_own {s} parking = returned (is_outside s.parker) (is_outside (park s.atomic s.parker).pc)
seen_own (meeting i w f) = none

abbrev pub seen : {s u : System} → Step s u → Option Event
seen (quiet (own o)) = seen_own o
seen (quiet (call_park timed w)) = some (Contract.parks timed)
seen (quiet (call_unpark i w)) = some (Contract.unparks i)
seen (quiet (gives_up i l w)) = none
seen (wait_ending r) = none

-- A run from the start with this trace.
pub data Runs (late : Bool) : System → List Event → Type 0 where
  begin : Runs late (init late) []
  go :
      {s u : System} {trace : List Event}
      → Runs late s trace
      → (step : Step s u) → Runs late u (follows (seen step) trace)

Runs-Reach : {late : Bool} {s : System} {trace : List Event} → Runs late s trace → Reach late s
Runs-Reach begin = start
Runs-Reach (go runs step) = later (Runs-Reach runs) step

-- Where the contract has the thread.
abbrev pub place : ParkPc → Contract.Pc
place outside = Contract.idle
place (exchanging timed) = Contract.parked timed
place (storing timed) = Contract.parked timed
place (entering timed) = Contract.parked timed
place (blocked timed) = Contract.parked timed
place (awake timed r) = Contract.parked timed
place panicked = Contract.idle

-- The token is there when the atomic is NOTIFIED.
abbrev pub view : ℕ → ParkPc → Contract.System
view a pc = record { token = a == notified; pc = place pc }

-- The contract has followed an access of `park`.
abbrev Followed : ℕ → ParkPc → After ParkPc → List Event → Type 0
Followed a pc after trace =
    Traced (view after.atomic after.pc)
      (follows (returned (is_outside pc) (is_outside after.pc)) trace)

lands :
    (a : ℕ) (pc : ParkPc) (after : After ParkPc) (trace : List Event)
    → park a pc ≡ after
    → Followed a pc after trace
    → Followed a pc (park a pc) trace
lands a pc after trace e followed = rw e followed

park-Traced :
    (a : ℕ) (pc : ParkPc) (trace : List Event)
    → a ≤ 2
    → Agrees a pc
    → Traced (view a pc) trace
    → Followed a pc (park a pc) trace
unfolding park
park-Traced a outside trace range agrees traced = traced
park-Traced a (exchanging timed) trace range agrees traced = elim (Bool-cases (a == not_parked)) [
  | inl clear ↦
      let token : (a == notified) ≡ false = ground arith in
      lands a (exchanging timed) (record { atomic = parked; pc = entering timed }) trace
        (ground arith) (rw token at traced)
  | inr other ↦
      let told : a ≡ notified = ground arith in
      lands a (exchanging timed) (record { atomic = a; pc = storing timed }) trace (ground arith)
        traced
]
park-Traced a (storing timed) trace range agrees traced = takes_token (ground arith) traced
park-Traced a (entering timed) trace range agrees traced = traced
park-Traced a (blocked timed) trace range agrees traced = traced
park-Traced a (awake true r) trace range agrees traced = ends_timed (a == notified) traced
park-Traced a (awake false unknown) trace range agrees traced = elim (Bool-cases (a == notified)) [
  | inl told ↦
      lands a (awake false unknown) (record { atomic = not_parked; pc = outside }) trace
        (ground arith) (takes_token told traced)
  | inr other ↦
      lands a (awake false unknown) (record { atomic = a; pc = entering false }) trace
        (ground arith) traced
]
park-Traced a (awake false no_match) trace range agrees traced = traced
park-Traced a (awake false timed_out) trace range agrees traced = traced
park-Traced a (awake false interrupt) trace range agrees traced = traced
park-Traced a (awake false woken_up) trace range agrees traced = traced
park-Traced a panicked trace range agrees traced = traced

wait_ends-place : (r : WakeupReason) (pc : ParkPc) → place (wait_ends r pc) ≡ place pc
unfolding wait_ends
wait_ends-place r outside = refl
wait_ends-place r (exchanging timed) = refl
wait_ends-place r (storing timed) = refl
wait_ends-place r (entering timed) = refl
wait_ends-place r (blocked timed) = refl
wait_ends-place r (awake timed w) = refl
wait_ends-place r panicked = refl

Step-Traced :
    {late : Bool} {s u : System} {trace : List Event} (step : Step s u)
    → Reach late s
    → Traced (view s.atomic s.parker) trace
    → Traced (view u.atomic u.parker) (follows (seen step) trace)
unfolding unpark
Step-Traced {s = s} (quiet (own parking)) r traced =
    let inv = Reach-Inv r in park-Traced s.atomic s.parker _ inv.range inv.agrees traced
Step-Traced {s = s} (quiet (own (meeting i w f))) r traced =
    rw (wait_ends-place unknown s.parker) traced
Step-Traced (quiet (call_park timed w)) r traced =
    Contract.later (rw w at traced) (Contract.call_park timed)
Step-Traced (quiet (call_unpark i w)) r traced = Contract.later traced (Contract.unpark i)
Step-Traced (quiet (gives_up i l w)) r traced = traced
Step-Traced {s = s} (wait_ending reason) r traced = rw (wait_ends-place reason s.parker) traced

Runs-Traced :
    {late : Bool} {s : System} {trace : List Event}
    → Runs late s trace
    → Traced (view s.atomic s.parker) trace
Runs-Traced begin = Contract.start
Runs-Traced (go runs step) = Step-Traced step (Runs-Reach runs) (Runs-Traced runs)

-- With one thread that parks and any number that unpark it, every trace of the Parker over keyed
-- events, releases that time out and waits that end on their own included, is the trace of a run
-- of the contract of Parker; the token is there exactly when the atomic is NOTIFIED; park has not
-- panicked; and the calls of park that took a notification are at most as many as the calls of
-- unpark.
pub keyed_parker_refines_contract :
    {late : Bool} {s : System} {trace : List Event}
    → Runs late s trace
    → Traced (view s.atomic s.parker) trace × (s.parker ≢ panicked) × (s.returns ≤ s.unparks)
keyed_parker_refines_contract runs =
    let (sound, paid) = keyed_park_is_safe (Runs-Reach runs) in (Runs-Traced runs, sound, paid)
