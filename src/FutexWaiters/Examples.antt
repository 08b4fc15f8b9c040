-- ===== src/FutexWaiters/Examples.antt =====
-- Runs of threads that wait over a futex, and the theorems at their ends.
use valet_parking.Prelude.{◌^◌, ◌≡◌, ◌≢◌, inl, inr, List, [], ◌∷◌, false, refl, arith, ℕ_discrete}
use valet_parking.Word.{Target}
use valet_parking.FutexWaiters.{asleep, pub_bits, compare_and_wait, store_and_wake, woken}
use valet_parking.FutexWaiters.System.{
  System, Step, Reach, start, later, call_wait, call_store, comparing, swapping, waking_up,
}
use valet_parking.Contract.{Event, waits, stores, returns}
use valet_parking.FutexWaiters.Agreement.{Runs, begin, go, Allowed}
use valet_parking.FutexWaiters.Refinement.{futex_refines_contract}
use valet_parking.FutexWaiters.Progress.{ReturnsFrom, futex_waiter_returns}
use valet_parking.FutexWaiters.Safety.{WillWake, little_sleeper_is_lost}

abbrev thirty_two : Target
thirty_two = record { usize_bytes = 4; big_endian = false }

abbrev sixty_four : Target
sixty_four = record { usize_bytes = 8; big_endian = false }

-- A thread sleeps while the value is 0.
sleeps : (s : System) × Reach thirty_two s
unfolding compare_and_wait ℕ_discrete
sleeps = (
  _,
  later
      (later
        (later (start 0 (record { word = omega arith; no_reserved = refl }))
          (call_wait 0 0 refl (omega arith)))
        (comparing 0))
      (comparing 0),
)

-- Thread 0 is about to wait for 0. Meanwhile thread 1 has stored 2^63 and called `wake`, and thread 2
-- has begun to wait for that value.
overtaken : (s : System) × Reach sixty_four s
unfolding compare_and_wait store_and_wake woken ℕ_discrete
overtaken = (
  _,
  later
      (later
        (later
          (later
            (later
              (later
                (later (start 0 (record { word = omega arith; no_reserved = refl }))
                  (call_wait 0 0 refl (omega arith)))
                (comparing 0))
              (call_store 1 (2 ^ 63) refl (record { word = omega arith; no_reserved = refl })))
            (swapping 1))
          (waking_up 1 refl))
        (call_wait 2 (2 ^ 63) refl (omega arith)))
      (comparing 2),
)

nobody_wakes : WillWake overtaken.0 → ⊥
unfolding overtaken
nobody_wakes (j, x) = ground (arith, x)

little_sleeper_is_lost_example :
    (u : System) × Step sixty_four overtaken.0 u
    × (u.pc 0 ≡ asleep 0)
    × (pub_bits sixty_four u.atomic ≢ 0)
    × (WillWake u → ⊥)
unfolding overtaken
little_sleeper_is_lost_example =
    little_sleeper_is_lost sixty_four 0 0 refl refl overtaken.1 refl refl (omega arith) nobody_wakes

-- Thread 0 waits for 0 on a 64-bit target, sleeps, and is woken by a store of thread 1.
woken_up : (s : System) × (trace : List Event) × Runs sixty_four s trace
unfolding compare_and_wait store_and_wake woken ℕ_discrete
woken_up = (
  _,
  _,
  go
      (go
        (go
          (go
            (go
              (go
                (go (begin 0 (record { word = omega arith; no_reserved = refl }))
                  (call_wait 0 0 refl (omega arith)))
                (comparing 0))
              (comparing 0))
            (call_store 1 (2 ^ 63) refl (record { word = omega arith; no_reserved = refl })))
          (swapping 1))
        (waking_up 1 refl))
      (comparing 0),
)

woken_up_trace : woken_up.1 ≡ returns 0 ∷ returns 1 ∷ stores 1 (2 ^ 63) ∷ waits 0 0 ∷ []
unfolding woken_up compare_and_wait store_and_wake woken ℕ_discrete
woken_up_trace = refl

futex_refines_contract_example : Allowed sixty_four woken_up.0 woken_up.1
futex_refines_contract_example = futex_refines_contract sixty_four (inr refl) woken_up.2

-- On a 32-bit target, thread 0 sleeps, and thread 1 has stored 2^31 and not called `wake` yet.
outdated : (s : System) × Reach thirty_two s
unfolding sleeps store_and_wake ℕ_discrete
outdated = (
  _,
  later
      (later sleeps.1
        (call_store 1 (2 ^ 31) refl (record { word = omega arith; no_reserved = refl })))
      (swapping 1),
)

futex_waiter_returns_example : ReturnsFrom thirty_two outdated.0 0
unfolding outdated
futex_waiter_returns_example =
    futex_waiter_returns thirty_two (inl refl) 0 0 (inl refl) outdated.1 refl (omega arith)
