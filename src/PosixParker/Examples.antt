-- ===== src/PosixParker/Examples.antt =====
-- Runs of the Parker over a condition variable on a 64-bit target, and the theorems at their ends.
use valet_parking.Prelude.{◌≡◌, false, true, arith, refl, ℕ_discrete}
use valet_parking.Word.{Target}
use valet_parking.PosixParker.{park, unpark, clear_ptr, signal}
use valet_parking.PosixParker.System.{
  System, IsAddress, Reach, start, later, call_park, park_locks, park_accesses, park_blocks,
  wakes_early, park_relocks, park_unlocks, park_destroys, call_unpark, unpark_locks, unpark_clears,
  unpark_signals, unpark_unlocks,
}
use valet_parking.PosixParker.Progress.{Completes}
use valet_parking.PosixParker.Liveness.{notified_posix_park_returns}
use valet_parking.Prelude.{List, [], ◌∷◌, ◌≢◌}
use valet_parking.Contract.Parker as Contract
use valet_parking.Contract.Parker.{Event}
use valet_parking.PosixParker.{clear_ptr, panicked}
use valet_parking.PosixParker.Refinement.{Runs, begin, go, view, posix_parker_refines_contract}
use valet_parking.PosixParker.Safety.{posix_never_faults}

abbrev target : Target
target = record { usize_bytes = 8; big_endian = false }

frame : IsAddress target 64
frame = record { aligned = refl; nonnull = omega arith; fits = omega arith }

-- Thread 0 is about to lock the mutex of the thread that waits.
notified_asleep : (s : System) × Reach target false false s
unfolding park unpark ℕ_discrete
notified_asleep = (
  _,
  later
      (later
        (later
          (later
            (later (later (start 64 frame) (call_park false 64 refl frame (λ e. e)))
              (park_locks refl refl))
            park_accesses)
          park_accesses)
        (park_blocks refl))
      (call_unpark 0 refl),
)

notified_posix_park_returns_example : Completes target false notified_asleep.0
unfolding notified_asleep
notified_posix_park_returns_example =
    notified_posix_park_returns target (omega arith) false notified_asleep.1 refl (λ e. cc)

posix_never_faults_example : notified_asleep.0.faulted ≡ false
posix_never_faults_example = posix_never_faults target (omega arith) false notified_asleep.1

-- The time limit of the thread has passed, and thread 0 is about to lock its mutex.
timed_out_while_notified : (s : System) × Reach target false true s
unfolding park unpark signal ℕ_discrete
timed_out_while_notified = (
  _,
  later
      (later
        (later
          (later
            (later
              (later
                (later (later (start 64 frame) (call_park true 64 refl frame (λ e. e)))
                  (park_locks refl refl))
                park_accesses)
              park_accesses)
            (park_blocks refl))
          (call_unpark 0 refl))
        wakes_early)
      (park_relocks refl refl),
)

-- The limit passed before the notification, and the second wait ended for no reason.
woken_from_last_wait : (s : System) × Reach target false true s
unfolding park unpark signal ℕ_discrete
woken_from_last_wait = (
  _,
  later
      (later
        (later
          (later
            (later
              (later
                (later
                  (later
                    (later
                      (later
                        (later (later (start 64 frame) (call_park true 64 refl frame (λ e. e)))
                          (park_locks refl refl))
                        park_accesses)
                      park_accesses)
                    (park_blocks refl))
                  wakes_early)
                (park_relocks refl refl))
              park_accesses)
            (call_unpark 0 refl))
          park_accesses)
        (park_blocks refl))
      wakes_early,
)

-- The thread has parked, has been notified, and has returned.
notified_returned : (s : System) × (trace : List Event) × Runs target false s trace
unfolding park unpark clear_ptr signal ℕ_discrete
notified_returned = (
  _,
  _,
  (go
      (go
        (go
          (go
            (go
              (go
                (go
                  (go
                    (go
                      (go
                        (go
                          (go
                            (go
                              (go
                                (go (begin 64 frame)
                                  (call_park false 64 refl frame (λ e. absurd (ground (arith, e)))))
                                (park_locks refl refl))
                              (park_accesses))
                            (park_accesses))
                          (park_blocks refl))
                        (call_unpark 0 refl))
                      (unpark_locks 0 refl refl refl))
                    (unpark_clears 0 refl))
                  (unpark_signals 0 refl refl))
                (unpark_unlocks 0 refl refl))
              (park_relocks refl refl))
            (park_accesses))
          (park_unlocks refl))
        (park_destroys refl))
      (park_accesses)),
)

notified_returned_trace :
    notified_returned.1 ≡ Contract.returns ∷ Contract.unparks 0 ∷ Contract.parks false ∷ []
unfolding notified_returned park unpark clear_ptr signal ℕ_discrete
notified_returned_trace = refl

posix_parker_refines_contract_example :
    let s = notified_returned.0 in
    Contract.Traced (view s.atomic s.parker) notified_returned.1 × (s.parker ≢ panicked)
posix_parker_refines_contract_example =
    posix_parker_refines_contract target (omega arith) false notified_returned.2
