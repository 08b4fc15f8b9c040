-- ===== src/FutexParker/Refinement.antt =====
-- The Parker over a futex against the contract of `Parker`.
use valet_parking.Prelude.{
  ℕ, true, false, ◌==◌, List, [], Option, none, some, ◌≡◌, ◌≢◌, ◌≤◌, refl, arith, Bool-cases, inl,
  inr,
}
use valet_parking.FutexParker.{
  not_parked, parked, notified, ParkPc, outside, exchanging, storing, waiting, asleep, swapping,
  panicked, After, is_outside, park, unpark, woken, ends_early,
}
use valet_parking.FutexParker.System.{
  System, Own, parking, waking_up, Step, own, call_park, call_unpark, early_end, Reach, start,
  later, init,
}
use valet_parking.FutexParker.Invariant.{Agrees, Reach-Inv}
use valet_parking.FutexParker.Safety.{futex_park_is_safe}
use valet_parking.Contract.Parker as Contract
use valet_parking.Contract.Parker.{Event, follows, Traced, returned, takes_token, ends_timed}

-- What a caller sees of a step.
abbrev pub seen_own : {s u : System} → Own s u → Option Event
seen_own {s} parking = returned (is_outside s.parker) (is_outside (park s.atomic s.parker).pc)
seen_own (waking_up i w) = none

abbrev pub seen : {s u : System} → Step s u → Option Event
seen (own o) = seen_own o
seen (call_park timed w) = some (Contract.parks timed)
seen (call_unpark i w) = some (Contract.unparks i)
seen early_end = none

-- A run from the start with this trace.
pub data Runs : System → List Event → Type 0 where
  begin : Runs init []
  go :
      {s u : System} {trace : List Event}
      → Runs s trace
      → (step : Step s u) → Runs u (follows (seen step) trace)

Runs-Reach : {s : System} {trace : List Event} → Runs s trace → Reach s
Runs-Reach begin = start
Runs-Reach (go runs step) = later (Runs-Reach runs) step

-- Where the contract has the thread.
abbrev pub place : ParkPc → Contract.Pc
place outside = Contract.idle
place (exchanging timed) = Contract.parked timed
place (storing timed) = Contract.parked timed
place (waiting timed) = Contract.parked timed
place (asleep timed) = Contract.parked timed
place (swapping timed) = Contract.parked timed
place panicked = Contract.idle

-- The token is there when the atomic is NOTIFIED.
abbrev pub view : ℕ → ParkPc → Contract.System
view a pc = record { token = a == notified; pc = place pc }

-- The contract has followed an access of `park`.
abbrev Followed : ℕ → ParkPc → After ParkPc → List Event → Type 0
Followed a pc after trace =
    Traced (view after.atomic after.pc)
      (follows (returned (is_outside pc) (is_outside after.pc)) trace)

lands :
    (a : ℕ) (pc : ParkPc) (after : After ParkPc) (trace : List Event)
    → park a pc ≡ after
    → Followed a pc after trace
    → Followed a pc (park a pc) trace
lands a pc after trace e followed = rw e followed

park-Traced :
    (a : ℕ) (pc : ParkPc) (trace : List Event)
    → a ≤ 2
    → Agrees a pc
    → Traced (view a pc) trace
    → Followed a pc (park a pc) trace
unfolding park
park-Traced a outside trace range agrees traced = traced
park-Traced a (exchanging timed) trace range agrees traced = elim (Bool-cases (a == not_parked)) [
  | inl clear ↦
      let token : (a == notified) ≡ false = ground arith in
      lands a (exchanging timed) (record { atomic = parked; pc = waiting timed }) trace
        (ground arith) (rw token at traced)
  | inr other ↦
      let told : a ≡ notified = ground arith in
      lands a (exchanging timed) (record { atomic = a; pc = storing timed }) trace (ground arith)
        traced
]
park-Traced a (storing timed) trace range agrees traced = takes_token (ground arith) traced
park-Traced a (waiting timed) trace range agrees traced = elim (Bool-cases (a == parked)) [
  | inl same ↦
      lands a (waiting timed) (record { atomic = a; pc = asleep timed }) trace (ground arith) traced
  | inr other ↦
      lands a (waiting timed) (record { atomic = a; pc = swapping timed }) trace (ground arith)
        traced
]
park-Traced a (asleep timed) trace range agrees traced = traced
park-Traced a (swapping true) trace range agrees traced =
    lands a (swapping true) (record { atomic = not_parked; pc = outside }) trace (ground arith)
      (ends_timed (a == notified) traced)
park-Traced a (swapping false) trace range agrees traced = elim (Bool-cases (a == notified)) [
  | inl told ↦
      lands a (swapping false) (record { atomic = not_parked; pc = outside }) trace (ground arith)
        (takes_token told traced)
  | inr other ↦
      lands a (swapping false) (record { atomic = not_parked; pc = exchanging false }) trace
        (ground arith) (rw other at traced)
]
park-Traced a panicked trace range agrees traced = traced

woken-place : (pc : ParkPc) → place (woken pc) ≡ place pc
unfolding woken
woken-place outside = refl
woken-place (exchanging timed) = refl
woken-place (storing timed) = refl
woken-place (waiting timed) = refl
woken-place (asleep timed) = refl
woken-place (swapping timed) = refl
woken-place panicked = refl

ends_early-place : (pc : ParkPc) → place (ends_early pc) ≡ place pc
unfolding ends_early
ends_early-place outside = refl
ends_early-place (exchanging timed) = refl
ends_early-place (storing timed) = refl
ends_early-place (waiting timed) = refl
ends_early-place (asleep timed) = refl
ends_early-place (swapping timed) = refl
ends_early-place panicked = refl

Step-Traced :
    {s u : System} {trace : List Event} (step : Step s u)
    → Reach s
    → Traced (view s.atomic s.parker) trace
    → Traced (view u.atomic u.parker) (follows (seen step) trace)
unfolding unpark
Step-Traced {s} (own parking) r traced =
    let inv = Reach-Inv r in park-Traced s.atomic s.parker _ inv.range inv.agrees traced
Step-Traced {s} (own (waking_up i w)) r traced = rw (woken-place s.parker) traced
Step-Traced {s} (call_park timed w) r traced =
    Contract.later (rw w at traced) (Contract.call_park timed)
Step-Traced (call_unpark i w) r traced = Contract.later traced (Contract.unpark i)
Step-Traced {s} early_end r traced = rw (ends_early-place s.parker) traced

Runs-Traced :
    {s : System} {trace : List Event} → Runs s trace → Traced (view s.atomic s.parker) trace
Runs-Traced begin = Contract.start
Runs-Traced (go runs step) = Step-Traced step (Runs-Reach runs) (Runs-Traced runs)

-- With one thread that parks and any number that unpark it, every trace of the Parker over a
-- futex, which is the calls and the returns of park in their order, is the trace of a run of the
-- contract of Parker, in which unpark leaves a token and a park without timeout returns only when
-- it takes one, whatever spurious wakeups there were; the token is there exactly when the atomic
-- is NOTIFIED; park has not panicked; and calls of park with no timeout have returned at most as
-- often as unpark was called.
pub futex_parker_refines_contract :
    {s : System} {trace : List Event}
    → Runs s trace
    → Traced (view s.atomic s.parker) trace × (s.parker ≢ panicked) × (s.returns ≤ s.unparks)
futex_parker_refines_contract runs =
    let (sound, paid) = futex_park_is_safe (Runs-Reach runs) in (Runs-Traced runs, sound, paid)
