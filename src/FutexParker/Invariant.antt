-- ===== src/FutexParker/Invariant.antt =====
-- What holds in every reachable state of the Parker.
use valet_parking.Prelude.{
  ℕ, ◌+◌, ◌≤◌, ◌≡◌, ◌≢◌, arith, refl, Bool, Bool-cases, inl, inr, if◌then◌else◌, ◌==◌,
}
use valet_parking.FutexParker.{
  not_parked, parked, notified, ParkPc, outside, exchanging, storing, waiting, asleep, swapping,
  panicked, idle, waking, park, unpark, woken, ends_early,
}
use valet_parking.FutexParker.System.{
  System, init, Own, parking, waking_up, Step, own, call_park, call_unpark, early_end, Reach, start,
  later, parks, unparks_by, wakes_by,
}

-- The values of the atomic that go with each place in `park`.
abbrev pub Agrees : ℕ → ParkPc → Type 0
Agrees a outside = a ≢ parked
Agrees a (exchanging timed) = a ≢ parked
Agrees a (storing timed) = a ≡ notified
Agrees a (waiting timed) = a ≢ not_parked
Agrees a (asleep timed) = a ≢ not_parked
Agrees a (swapping timed) = a ≢ not_parked
Agrees a panicked = ⊥

abbrev pub pending : ℕ → ℕ
pending a = if a == notified then 1 else 0

pub record Inv (s : System) : Type 0 where
  pub range : s.atomic ≤ 2
  pub agrees : Agrees s.atomic s.parker
  -- A notified thread that sleeps is about to be woken.
  pub no_lost_wakeup :
      (timed : Bool)
      → s.parker ≡ asleep timed
      → s.atomic ≡ notified
      → (i : ℕ) × (s.unparker i ≡ waking)
  -- Each return is paid for by a call of `unpark`.
  pub paid : s.returns + pending s.atomic ≤ s.unparks

init-Inv : Inv init
init-Inv = record {
  range = omega arith;
  agrees = omega arith;
  no_lost_wakeup = λ timed e. cc;
  paid = omega arith;
}

-- A thread that falls asleep has just seen `PARKED`.
parks-no_lost_wakeup :
    {s : System} (pc : ParkPc)
    → s.parker ≡ pc
    → Inv s
    → (timed : Bool) → (park s.atomic pc).pc ≡ asleep timed
    → (park s.atomic pc).atomic ≡ notified
    → (i : ℕ) × (s.unparker i ≡ waking)
unfolding park
parks-no_lost_wakeup (asleep t) e inv timed p q = inv.no_lost_wakeup t e q
parks-no_lost_wakeup pc e inv timed p q = absurd (ground arith)

parks-Inv : {s : System} (pc : ParkPc) → s.parker ≡ pc → Inv s → Inv (parks s)
unfolding park
parks-Inv {s} pc e inv = record {
  range = ground arith;
  agrees = ground arith;
  no_lost_wakeup = rw e (parks-no_lost_wakeup pc e inv);
  paid = ground arith;
}

unparks-Inv : {s : System} (i : ℕ) → s.unparker i ≡ idle → Inv s → Inv (unparks_by i s)
unfolding unpark
unparks-Inv {s} i e inv = record {
  range = omega arith;
  agrees = ground arith;
  no_lost_wakeup = λ timed p q. elim (Bool-cases (s.atomic == parked)) [
    | inl was_parked ↦ (i, ground arith)
    | inr other ↦ let (j, w) = inv.no_lost_wakeup timed p (ground arith) in (j, ground arith)
  ];
  paid = ground arith;
}

wakes-Inv : {s : System} (i : ℕ) → Inv s → Inv (wakes_by i s)
unfolding woken
wakes-Inv {s} i inv = record {
  range = inv.range;
  agrees = ground arith;
  no_lost_wakeup = λ timed p q. absurd (ground arith);
  paid = inv.paid;
}

early_end-Inv : {s : System} → Inv s → Inv (record s { parker = ends_early s.parker })
unfolding ends_early
early_end-Inv {s} inv = record {
  range = inv.range;
  agrees = ground arith;
  no_lost_wakeup = λ timed p q. absurd (ground arith);
  paid = inv.paid;
}

Own-Inv : {s t : System} → Own s t → Inv s → Inv t
Own-Inv {s} parking inv = parks-Inv s.parker refl inv
Own-Inv (waking_up i e) inv = wakes-Inv i inv

-- Every step keeps the invariant.
pub Step-Inv : {s t : System} → Step s t → Inv s → Inv t
Step-Inv (own o) inv = Own-Inv o inv
Step-Inv (call_park timed e) inv = record {
  range = inv.range;
  agrees = ground arith;
  no_lost_wakeup = λ t p q. cc;
  paid = inv.paid;
}
Step-Inv (call_unpark i e) inv = unparks-Inv i e inv
Step-Inv early_end inv = early_end-Inv inv

pub Reach-Inv : {s : System} → Reach s → Inv s
Reach-Inv start = init-Inv
Reach-Inv (later r st) = Step-Inv st (Reach-Inv r)
