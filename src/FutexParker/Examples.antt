-- ===== src/FutexParker/Examples.antt =====
-- Runs of the Parker over a futex, and the theorems at their ends.
use valet_parking.Prelude.{◌≢◌, ◌≤◌, false, refl, ℕ_discrete}
use valet_parking.FutexParker.{panicked, park, unpark}
use valet_parking.FutexParker.System.{
  System, Reach, start, later, own, parking, call_park, call_unpark,
}
use valet_parking.Prelude.{◌≡◌, List, [], ◌∷◌}
use valet_parking.Contract.Parker as Contract
use valet_parking.Contract.Parker.{Event}
use valet_parking.FutexParker.{woken}
use valet_parking.FutexParker.System.{waking_up}
use valet_parking.FutexParker.Refinement.{Runs, begin, go, view, futex_parker_refines_contract}
use valet_parking.FutexParker.Safety.{Completes, notified_futex_park_returns}

-- The thread sleeps, and thread 0 has notified it but not called `wake` yet.
notified_asleep : (s : System) × Reach s
unfolding park unpark ℕ_discrete
notified_asleep = (
  _,
  later (later (later (later start (call_park false refl)) (own parking)) (own parking))
      (call_unpark 0 refl),
)

notified_futex_park_returns_example : Completes notified_asleep.0
unfolding notified_asleep
notified_futex_park_returns_example = notified_futex_park_returns notified_asleep.1 refl (λ e. cc)

-- The thread has parked, has been notified, and has returned.
notified_returned : (s : System) × (trace : List Event) × Runs s trace
unfolding park unpark woken ℕ_discrete
notified_returned = (
  _,
  _,
  go
      (go
        (go (go (go (go begin (call_park false refl)) (own parking)) (own parking))
          (call_unpark 0 refl))
        (own (waking_up 0 refl)))
      (own parking),
)

notified_returned_trace :
    notified_returned.1 ≡ Contract.returns ∷ Contract.unparks 0 ∷ Contract.parks false ∷ []
unfolding notified_returned park unpark woken ℕ_discrete
notified_returned_trace = refl

futex_parker_refines_contract_example :
    let s = notified_returned.0 in
    Contract.Traced (view s.atomic s.parker) notified_returned.1
    × (s.parker ≢ panicked)
    × (s.returns ≤ s.unparks)
futex_parker_refines_contract_example = futex_parker_refines_contract notified_returned.2
