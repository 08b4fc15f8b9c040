-- ===== src/PosixWaiters/Examples.antt =====
-- A run in which thread 1 wakes thread 0, which sleeps in its node, and the theorems at its end.
use valet_parking.Prelude.{ℕ, ◌≤◌, ◌≡◌, ◌^◌, ◌⊎◌, false, true, refl, arith, ℕ_discrete, List}
use valet_parking.Word.{Target}
use valet_parking.WaiterQueue.{outside, waiting, compare_and_wait, store_and_wake, walk}
use valet_parking.WaiterQueue as Q
use valet_parking.WaiterQueue.System as Queue
use valet_parking.WaiterQueue.System.{IsNode}
use valet_parking.WaiterQueue.Agreement.{Runs, Allowed}
use valet_parking.PosixParker.{is_outside, idle, park, unpark}
use valet_parking.PosixParker.System as Parker
use valet_parking.PosixParker.System.{IsAddress}
use valet_parking.Contract.{Event}
use valet_parking.PosixWaiters.System.{System, Reach, listing, enters, parking, unparks}
use valet_parking.PosixWaiters.Refinement.{
  Traced, starts, goes_on, Traced-Reach, posix_waiters_refine_contract,
}
use valet_parking.PosixWaiters.Running.{Run}
use valet_parking.PosixWaiters.Safety.{node_outlives_unpark}
use valet_parking.PosixWaiters.Progress.{list_runs_complete, posix_waiter_returns}

abbrev sixty_four : Target
sixty_four = record { usize_bytes = 8; big_endian = false }

size : 1 ≤ sixty_four.usize_bytes
size = omega arith

node : IsNode sixty_four 64
node = record { aligned = refl; nonnull = omega arith; fits = omega arith }

frame : IsAddress sixty_four 128
frame = record { aligned = refl; nonnull = omega arith; fits = omega arith }

-- Thread 0 sleeps in its node, and thread 1 has stored and is about to unpark it.
asleep : (s : System) × (trace : List Event) × Traced sixty_four false s trace
unfolding compare_and_wait store_and_wake walk park ℕ_discrete
asleep = (
  _,
  _,
  goes_on
      (goes_on
        (goes_on
          (goes_on
            (goes_on
              (goes_on
                (goes_on
                  (goes_on
                    (goes_on
                      (goes_on
                        (starts 0 128 (record { word = omega arith; no_reserved = refl }) frame)
                        (listing (Queue.call_wait 0 0 refl) refl (λ k. refl)))
                      (listing (Queue.own (Queue.comparing 0 64 (λ h. absurd h))) refl (λ k. refl)))
                    (enters 0 64 128 (node, λ k x. ground (arith, x)) refl frame (λ k. refl)))
                  (parking 0 (Parker.park_locks refl refl) refl))
                (parking 0 Parker.park_accesses refl))
              (parking 0 Parker.park_accesses refl))
            (parking 0 (Parker.park_blocks refl) refl))
          (listing
            (Queue.call_store 1 (2 ^ 63) refl (record { word = omega arith; no_reserved = refl }))
            refl (λ k. ground arith)))
        (listing (Queue.own (Queue.storing 1)) refl (λ k. ground arith)))
      (listing (Queue.own (Queue.reads 1 0 refl refl (omega arith))) refl (λ k. ground arith)),
)

-- Thread 1 is in `unpark`, about to lock the mutex in the node of thread 0.
woken : (s : System) × Reach sixty_four false s
unfolding asleep unpark ℕ_discrete
woken = (
  _,
  Traced-Reach sixty_four false (goes_on asleep.2 (unparks 1 0 refl refl (λ k. ground arith))),
)

node_outlives_unpark_example :
    (woken.0.queue.faulted ≡ false)
    × ((woken.0.parker 0).faulted ≡ false)
    × (((woken.0.parker 0).unparker 1 ≡ idle)
        ⊎ ((e : ℕ) × (p : ℕ) × (n : ℕ) × (woken.0.queue.pc 0 ≡ waiting e p n true)
            × (is_outside (woken.0.parker 0).parker ≡ false)))
node_outlives_unpark_example = node_outlives_unpark sixty_four size false 1 0 woken.1

posix_waiters_refine_contract_example :
    Runs sixty_four asleep.0.queue asleep.1 × Allowed sixty_four asleep.0.queue asleep.1
posix_waiters_refine_contract_example = posix_waiters_refine_contract sixty_four size false asleep.2

posix_waiter_returns_example :
    (u : System) × Run sixty_four false woken.0 u × (u.queue.pc 0 ≡ outside)
unfolding woken asleep Q.unpark compare_and_wait ℕ_discrete
posix_waiter_returns_example =
    posix_waiter_returns sixty_four size false 0 {e = 0} {p = 64} {n = 0} true woken.1 refl
      (omega arith)

-- The rest of `store_and_wake` in thread 1.
rest : (q : Queue.System) × Queue.Run sixty_four woken.0.queue q
unfolding woken asleep ℕ_discrete
rest = (_, Queue.next (Queue.ends 1 refl) (Queue.done _))

list_runs_complete_example : (u : System) × Run sixty_four false woken.0 u × (u.queue ≡ rest.0)
list_runs_complete_example = list_runs_complete sixty_four size false woken.1 rest.1
