-- ===== src/WaiterQueue/Examples.antt =====
-- Runs of waiting and waking threads, and the theorems at their ends.
use valet_parking.Prelude.{ℕ, ◌≡◌, ◌≤◌, false, refl, arith, ℕ_discrete, ◌^◌}
use valet_parking.Word.{Target}
use valet_parking.WaiterQueue.{outside, pub_bits, first, compare_and_wait, store_and_wake}
use valet_parking.WaiterQueue.System.{
  System, Reach, Run, start, later, own, call_wait, call_store, comparing, storing, IsNode,
}
use valet_parking.Prelude.{List}
use valet_parking.Contract.{Event}
use valet_parking.WaiterQueue.Agreement.{Runs, begin, go, Allowed}
use valet_parking.WaiterQueue.Refinement.{queue_refines_contract}
use valet_parking.Prelude.{◌<◌}
use valet_parking.Word.{usize_mod}
use valet_parking.WaiterQueue.{After, trying, swapping, walking, waiting}
use valet_parking.WaiterQueue.RoundTrip.{linked_node_round_trip}
use valet_parking.WaiterQueue.Safety.{Reaches}
use valet_parking.WaiterQueue.Progress.{store_and_wake-Completes}
use valet_parking.WaiterQueue.Woken.{Waits, Unparked}

abbrev sixty_four : Target
sixty_four = record { usize_bytes = 8; big_endian = false }

size : 1 ≤ sixty_four.usize_bytes
size = omega arith

node : IsNode sixty_four 64
node = record { aligned = refl; nonnull = omega arith; fits = omega arith }

-- Thread 0 waits for 0 with its node at 64, and thread 1 has stored 2^63 and taken the list.
taken : (s : System) × Reach sixty_four s
unfolding compare_and_wait store_and_wake ℕ_discrete
taken = (
  _,
  later
      (later
        (later
          (later
            (later (start 0 (record { word = omega arith; no_reserved = refl }))
              (call_wait 0 0 refl))
            (own (comparing 0 64 (λ h. absurd h))))
          (own (comparing 0 64 (λ h. (node, λ k x. ground (arith, x))))))
        (call_store 1 (2 ^ 63) refl (record { word = omega arith; no_reserved = refl })))
      (own (storing 1)),
)

store_and_wake-Completes_example :
    (u : System) × Run sixty_four taken.0 u
    × (u.pc 1 ≡ outside)
    × ((i e : ℕ) → Reaches taken.0.pc i 64 → Waits e (taken.0.pc i) → Unparked e (u.pc i))
    × (u.atomic ≡ taken.0.atomic)
unfolding taken
store_and_wake-Completes_example = store_and_wake-Completes sixty_four size 1 64 taken.1 refl

-- The same calls with their trace; thread 1 is still in its call.
seen_taken : (s : System) × (trace : List Event) × Runs sixty_four s trace
unfolding compare_and_wait store_and_wake ℕ_discrete
seen_taken = (
  _,
  _,
  go
      (go
        (go
          (go
            (go (begin 0 (record { word = omega arith; no_reserved = refl })) (call_wait 0 0 refl))
            (own (comparing 0 64 (λ h. absurd h))))
          (own (comparing 0 64 (λ h. (node, λ k x. ground (arith, x))))))
        (call_store 1 (2 ^ 63) refl (record { word = omega arith; no_reserved = refl })))
      (own (storing 1)),
)

queue_refines_contract_example : Allowed sixty_four seen_taken.0 seen_taken.1
queue_refines_contract_example = queue_refines_contract sixty_four size seen_taken.2

abbrev linking : After
linking = compare_and_wait sixty_four 64 (2 ^ 63) (trying (pub_bits sixty_four (2 ^ 63)) (2 ^ 63))

linked_node_round_trip_example :
    (pub_bits sixty_four linking.atomic ≡ pub_bits sixty_four (2 ^ 63))
    × ((store_and_wake sixty_four linking.atomic (swapping 0)).pc ≡ walking 64)
    × (linking.pc ≡ waiting (pub_bits sixty_four (2 ^ 63)) 64 (first sixty_four (2 ^ 63)) false)
    × (linking.atomic < usize_mod sixty_four)
linked_node_round_trip_example =
    linked_node_round_trip sixty_four size (2 ^ 63) 64 0 (omega arith) node
