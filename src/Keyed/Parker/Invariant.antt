-- ===== src/Keyed/Parker/Invariant.antt =====
-- What holds in every reachable state of the Parker over keyed events.
use valet_parking.Prelude.{
  ℕ, ◌+◌, ◌≤◌, ◌≡◌, ◌≢◌, arith, refl, Bool, false, Bool-cases, inl, inr, if◌then◌else◌, ◌==◌,
}
use valet_parking.Futex.{WakeupReason, no_match, timed_out, interrupt, woken_up, unknown}
use valet_parking.Keyed.Parker.{
  not_parked, parked, notified, ParkPc, outside, exchanging, storing, entering, blocked, awake,
  panicked, idle, releasing, park, unpark, wait_ends,
}
use valet_parking.Keyed.Parker.System.{
  System, parks, unparks_by, meets, Own, parking, meeting, Quiet, own, call_park, call_unpark,
  gives_up, Step, quiet, wait_ending, Reach, start, later,
}

-- The values of the atomic that go with each place in `park`.
abbrev pub Agrees : ℕ → ParkPc → Type 0
Agrees a outside = a ≢ parked
Agrees a (exchanging timed) = a ≢ parked
Agrees a (storing timed) = a ≡ notified
Agrees a (entering timed) = a ≢ not_parked
Agrees a (blocked timed) = a ≢ not_parked
Agrees a (awake timed r) = a ≢ not_parked
Agrees a panicked = ⊥

-- The thread will wait for a release before it tests the atomic.
abbrev pub Needs : ParkPc → Type 0
Needs (entering timed) = Unit
Needs (blocked timed) = Unit
Needs (awake false unknown) = ⊥
Needs (awake false r) = Unit
Needs pc = ⊥

abbrev pub pending : ℕ → ℕ
pending a = if a == notified then 1 else 0

pub record Inv (late : Bool) (s : System) : Type 0 where
  pub limits : s.late ≡ late
  pub range : s.atomic ≤ 2
  pub agrees : Agrees s.atomic s.parker
  -- Unless releases time out, there is one for a notified thread that needs it.
  pub released :
      late ≡ false → s.atomic ≡ notified → Needs s.parker → (i : ℕ) × (s.unparker i ≡ releasing)
  -- Each notification taken is paid for by a call of `unpark`.
  pub paid : s.returns + pending s.atomic ≤ s.unparks

parks-released :
    {late : Bool} {s : System} (pc : ParkPc)
    → s.parker ≡ pc
    → Inv late s
    → late ≡ false
    → (park s.atomic pc).atomic ≡ notified
    → Needs (park s.atomic pc).pc
    → (i : ℕ) × (s.unparker i ≡ releasing)
unfolding park
parks-released (entering timed) e inv l n w = inv.released l n (rw e tt)
parks-released (blocked timed) e inv l n w = inv.released l n (rw e tt)
parks-released (awake false no_match) e inv l n w = inv.released l n (rw e tt)
parks-released (awake false timed_out) e inv l n w = inv.released l n (rw e tt)
parks-released (awake false interrupt) e inv l n w = inv.released l n (rw e tt)
parks-released (awake false woken_up) e inv l n w = inv.released l n (rw e tt)
parks-released pc e inv l n w = absurd (ground (arith, w))

parks-Inv :
    {late : Bool} {s : System} (pc : ParkPc) → s.parker ≡ pc → Inv late s → Inv late (parks s)
unfolding park
parks-Inv {late} {s} pc e inv = record {
  limits = inv.limits;
  range = ground arith;
  agrees = ground arith;
  released = rw e (parks-released pc e inv);
  paid = ground arith;
}

unparks-Inv :
    {late : Bool} {s : System} (i : ℕ)
    → s.unparker i ≡ idle
    → Inv late s
    → Inv late (unparks_by i s)
unfolding unpark
unparks-Inv {s = s} i e inv = record {
  limits = inv.limits;
  range = omega arith;
  agrees = ground arith;
  released = λ l n w. elim (Bool-cases (s.atomic == parked)) [
    | inl was_parked ↦ (i, ground arith)
    | inr other ↦ let (j, x) = inv.released l (ground (arith, w)) w in (j, ground arith)
  ];
  paid = ground arith;
}

meets-Inv :
    {late : Bool} {s : System} (i : ℕ) {timed : Bool}
    → s.parker ≡ blocked timed
    → Inv late s
    → Inv late (meets i s)
unfolding wait_ends
meets-Inv {s = s} i e inv = record {
  limits = inv.limits;
  range = inv.range;
  agrees = ground arith;
  released = λ l n w. absurd (ground (arith, w));
  paid = inv.paid;
}

ends-Inv :
    {late : Bool} {s : System} (r : WakeupReason) (pc : ParkPc)
    → s.parker ≡ pc
    → Inv late s
    → Inv late (record s { parker = wait_ends r s.parker })
unfolding wait_ends
ends-Inv {s = s} r pc e inv = record {
  limits = inv.limits;
  range = inv.range;
  agrees = ground arith;
  released = λ l n w. inv.released l n (ground (arith, w));
  paid = inv.paid;
}

Own-Inv : {late : Bool} {s u : System} → Own s u → Inv late s → Inv late u
Own-Inv {s = s} parking inv = parks-Inv s.parker refl inv
Own-Inv (meeting i e f) inv = meets-Inv i f inv

Quiet-Inv : {late : Bool} {s u : System} → Quiet s u → Inv late s → Inv late u
Quiet-Inv (own o) inv = Own-Inv o inv
Quiet-Inv (call_park timed e) inv = record {
  limits = inv.limits;
  range = inv.range;
  agrees = ground arith;
  released = λ l n w. absurd w;
  paid = inv.paid;
}
Quiet-Inv (call_unpark i e) inv = unparks-Inv i e inv
Quiet-Inv (gives_up i l e) inv = record {
  limits = inv.limits;
  range = inv.range;
  agrees = inv.agrees;
  released = λ k n w. absurd (ground (arith, inv.limits));
  paid = inv.paid;
}

pub Step-Inv : {late : Bool} {s u : System} → Step s u → Inv late s → Inv late u
Step-Inv (quiet q) inv = Quiet-Inv q inv
Step-Inv {s = s} (wait_ending r) inv = ends-Inv r s.parker refl inv

pub Reach-Inv : {late : Bool} {s : System} → Reach late s → Inv late s
Reach-Inv start = record {
  limits = refl;
  range = omega arith;
  agrees = omega arith;
  released = λ l n w. absurd w;
  paid = omega arith;
}
Reach-Inv (later r step) = Step-Inv step (Reach-Inv r)
