-- ===== src/FutexParker/Safety.antt =====
-- What the Parker over a futex promises.
use valet_parking.Prelude.{◌≤◌, ◌≡◌, ◌≢◌, arith, refl, Bool}
use valet_parking.FutexParker.{
  not_parked, notified, ParkPc, outside, exchanging, storing, waiting, asleep, swapping, panicked,
  park, woken,
}
use valet_parking.FutexParker.System.{
  System, Own, parking, waking_up, Reach, Run, done, next, parks,
}
use valet_parking.FutexParker.Invariant.{Inv, Reach-Inv}

pub futex_park_is_safe : {s : System} → Reach s → (s.parker ≢ panicked) × (s.returns ≤ s.unparks)
futex_park_is_safe r = let inv = Reach-Inv r in (λ e. ground (arith, e, inv), omega (arith, inv))

-- The calls that are under way lead to the return of `park`, which has used up the notification.
abbrev pub Completes : System → Type 0
Completes s = (t : System) × Run s t × (t.parker ≡ outside) × (t.atomic ≡ not_parked)

first-Completes : {s u : System} → Own s u → Completes u → Completes s
first-Completes o (t, run, out, clear) = (t, next o run, out, clear)

swapping-Completes :
    {s : System} {timed : Bool} → s.parker ≡ swapping timed → s.atomic ≡ notified → Completes s
unfolding park
swapping-Completes {s} e n = (parks s, next parking (done _), ground arith, ground arith)

storing-Completes : {s : System} {timed : Bool} → s.parker ≡ storing timed → Completes s
unfolding park
storing-Completes {s} e = (parks s, next parking (done _), ground arith, ground arith)

completes :
    {s : System} (pc : ParkPc)
    → s.parker ≡ pc
    → Inv s
    → s.atomic ≡ notified
    → pc ≢ outside
    → Completes s
unfolding park woken
completes outside e inv n busy = absurd (busy refl)
completes (exchanging timed) e inv n busy =
    first-Completes parking (storing-Completes {timed = timed} (ground arith))
completes (storing timed) e inv n busy = storing-Completes e
completes (waiting timed) e inv n busy =
    first-Completes parking (swapping-Completes {timed = timed} (ground arith) (ground arith))
completes (asleep timed) e inv n busy =
    let (i, w) = inv.no_lost_wakeup timed e n in
    first-Completes (waking_up i w) (swapping-Completes {timed = timed} (ground arith) n)
completes (swapping timed) e inv n busy = swapping-Completes e n
completes panicked e inv n busy = absurd (ground arith)

-- In every state that the Parker over a futex can reach, if the atomic is NOTIFIED and the thread
-- is in park, the steps of the calls under way lead to a state in which park has returned and the
-- atomic is NOT_PARKED.
pub notified_futex_park_returns :
    {s : System} → Reach s → s.atomic ≡ notified → s.parker ≢ outside → Completes s
notified_futex_park_returns {s} r n busy = completes s.parker refl (Reach-Inv r) n busy
