-- ===== src/Keyed/Parker/Safety.antt =====
-- What the Parker over keyed events promises.
use valet_parking.Prelude.{ℕ, ◌≤◌, ◌≡◌, ◌≢◌, arith, refl, Bool, true, false}
use valet_parking.Futex.{unknown}
use valet_parking.Keyed.Parker.{
  not_parked, notified, ParkPc, outside, exchanging, storing, entering, blocked, awake, panicked,
  releasing, park, wait_ends,
}
use valet_parking.Keyed.Parker.System.{System, Own, parking, meeting, Reach, Run, done, next, parks}
use valet_parking.Keyed.Parker.Invariant.{Inv, Reach-Inv, Needs}

pub keyed_park_is_safe :
    {late : Bool} {s : System} → Reach late s → (s.parker ≢ panicked) × (s.returns ≤ s.unparks)
keyed_park_is_safe r =
    let inv = Reach-Inv r in (λ e. ground (arith, e, inv.agrees), omega (arith, inv.paid))

-- The calls that are under way lead to the return of `park`, which has used up the notification.
abbrev pub Completes : System → Type 0
Completes s = (u : System) × Run s u × (u.parker ≡ outside) × (u.atomic ≡ not_parked)

first-Completes : {s u : System} → Own s u → Completes u → Completes s
first-Completes o (v, run, out, clear) = (v, next o run, out, clear)

storing-Completes : {s : System} {timed : Bool} → s.parker ≡ storing timed → Completes s
unfolding park
storing-Completes {s} e = (parks s, next parking (done _), ground arith, ground arith)

awake-Completes :
    {s : System} (timed : Bool) → s.parker ≡ awake timed unknown → s.atomic ≡ notified → Completes s
unfolding park
awake-Completes {s} true e n = (parks s, next parking (done _), ground arith, ground arith)
awake-Completes {s} false e n = (parks s, next parking (done _), ground arith, ground arith)

blocked-Completes :
    {s : System} {timed : Bool} (i : ℕ)
    → s.parker ≡ blocked timed
    → s.unparker i ≡ releasing
    → s.atomic ≡ notified
    → Completes s
unfolding wait_ends
blocked-Completes {s} {timed} i e r n =
    first-Completes (meeting i r e) (awake-Completes timed (ground arith) n)

entering-Completes :
    {s : System} {timed : Bool} (i : ℕ)
    → s.parker ≡ entering timed
    → s.unparker i ≡ releasing
    → s.atomic ≡ notified
    → Completes s
unfolding park
entering-Completes {s} {timed} i e r n =
    first-Completes parking
      (blocked-Completes {s = parks s} {timed = timed} i (ground arith) r (ground arith))

completes :
    {s : System} (pc : ParkPc)
    → s.parker ≡ pc
    → Inv false s
    → s.atomic ≡ notified
    → pc ≢ outside
    → Completes s
unfolding park
completes outside e inv n busy = absurd (busy refl)
completes (exchanging timed) e inv n busy =
    first-Completes parking (storing-Completes {timed = timed} (ground arith))
completes (storing timed) e inv n busy = storing-Completes e
completes (entering timed) e inv n busy =
    let (i, r) = inv.released refl n (rw e tt) in entering-Completes i e r n
completes (blocked timed) e inv n busy =
    let (i, r) = inv.released refl n (rw e tt) in blocked-Completes i e r n
completes {s} (awake true r) e inv n busy =
    (parks s, next parking (done _), ground arith, ground arith)
completes (awake false unknown) e inv n busy = awake-Completes false e n
completes {s} (awake false r) e inv n busy =
    let needs : Needs s.parker = rw e (ground (arith)) in
    let (i, x) = inv.released refl n needs in
    first-Completes parking
      (entering-Completes {s = parks s} {timed = false} i (ground arith) x (ground arith))
completes panicked e inv n busy = absurd (ground arith)

-- Over keyed events, in every state reached without a release that timed out, if the atomic is
-- NOTIFIED and the thread is in park, the steps of the calls under way lead to a state in which
-- park has returned and the atomic is NOT_PARKED.
pub notified_keyed_park_returns :
    {s : System} → Reach false s → s.atomic ≡ notified → s.parker ≢ outside → Completes s
notified_keyed_park_returns {s} r n busy = completes s.parker refl (Reach-Inv r) n busy
