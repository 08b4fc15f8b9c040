-- ===== src/PosixWaiters/Refinement.antt =====
-- The list with its Parkers against the contract of `Waiters`.
use valet_parking.Prelude.{ℕ, ◌≤◌, ◌≡◌, Bool, true, Option, none, List, [], refl}
use valet_parking.Word.{Target}
use valet_parking.Reserved.{IsFree}
use valet_parking.WaiterQueue.{Pc, is_outside, compare_and_wait}
use valet_parking.WaiterQueue.System as Queue
use valet_parking.WaiterQueue.System.{HasNode, IsNode}
use valet_parking.WaiterQueue.Agreement.{Runs, begin, go, Allowed}
use valet_parking.WaiterQueue.Agreement as Seen
use valet_parking.WaiterQueue.Refinement.{queue_refines_contract, Step-Allowed}
use valet_parking.WaiterQueue.Agreement.{Agrees, AllowedFrom}
use valet_parking.WaiterQueue.Steps.{Reach-Inv as Queue-Inv}
use valet_parking.Contract
use valet_parking.PosixParker.System.{IsAddress}
use valet_parking.Contract.{Event, follows}
use valet_parking.Contract.Agreement.{returned}
use valet_parking.PosixWaiters.System.{
  System, init, Step, listing, enters, parking, unparks, returns, Reach, start, later,
}
use valet_parking.PosixWaiters.Linked.{comparing_makes}
use valet_parking.PosixWaiters.Invariant.{Inv, Reach-Fits, returned_was_unparked}

module _ (t : Target) (debug : Bool) where
  -- What a caller sees of a step.
  abbrev pub seen : {s u : System} → Step t debug s u → Option Event
  seen (listing step alone free) = Seen.seen t step
  seen step = none

  -- A run from a start with this trace.
  pub data Traced : System → List Event → Type 0 where
    starts : (word addr : ℕ) → IsFree t word → IsAddress t addr → Traced (init word addr) []
    goes_on :
        {s u : System} {trace : List Event}
        → Traced s trace
        → (step : Step t debug s u) → Traced u (follows (seen step) trace)

  pub Traced-Reach : {s : System} {trace : List Event} → Traced s trace → Reach t debug s
  Traced-Reach (starts word addr free ok) = start word addr free ok
  Traced-Reach (goes_on traced step) = later (Traced-Reach traced) step

module _ (t : Target) (size : 1 ≤ t.usize_bytes) (debug : Bool) where
  -- To make a node is no return.
  made-returned :
      (i node word : ℕ) (pc : Pc)
      → HasNode (compare_and_wait t node word pc).pc node
      → (HasNode pc node → ⊥)
      → returned i (is_outside pc) (is_outside (compare_and_wait t node word pc).pc) ≡ none
  made-returned i node word pc made apart =
      let (e, n, new, inside) = comparing_makes t node word pc made apart in rw new (rw inside refl)

  -- The list makes the step, or its state stays.
  Step-Runs :
      {s u : System} (trace : List Event) (step : Step t debug s u)
      → Inv t debug s
      → Runs t s.queue trace
      → Runs t u.queue (follows (seen t debug step) trace)
  Step-Runs trace (listing step alone free) inv runs = go runs step
  Step-Runs {s} trace (enters i node addr fresh made ok free) inv runs =
      let silent = made-returned i node s.queue.atomic (s.queue.pc i) made (fresh.1 i) in
      rw silent at (go runs (Queue.own (Queue.comparing i node (λ _. fresh))))
  Step-Runs trace (parking k step inner) inv runs = runs
  Step-Runs trace (unparks i k w f free) inv runs = go runs (Queue.own (Queue.unparks i k w f))
  Step-Runs trace (returns k {e} {p} {n} {unparked} w out) inv runs =
      let was : unparked ≡ true =
        returned_was_unparked t size debug k unparked inv w (rw out refl) in
      go runs (Queue.own (Queue.returns k (rw was at w)))

  Traced-Runs : {s : System} {trace : List Event} → Traced t debug s trace → Runs t s.queue trace
  Traced-Runs (starts word addr free ok) = begin word free
  Traced-Runs (goes_on traced step) =
      Step-Runs _ step (Reach-Fits t size debug (Traced-Reach t debug traced)) (Traced-Runs traced)

  -- Every trace of the Waiters on Posix, which are the list of waiters with a Parker over a
  -- condition variable in every node, with the pthread calls of all threads interleaved and
  -- whatever spurious wakeups there were, is the trace of a run of the list of waiters in which
  -- park returns only after unpark was called and unpark is one step; so it is the trace of a run
  -- of the contract of Waiters that agrees with the atomic and with the place of every thread.
  pub posix_waiters_refine_contract :
      {s : System} {trace : List Event}
      → Traced t debug s trace
      → Runs t s.queue trace × Allowed t s.queue trace
  posix_waiters_refine_contract traced =
      let runs = Traced-Runs traced in (runs, queue_refines_contract t size runs)

  -- The contract makes the step, from a state that agrees.
  pub Step-AllowedFrom :
      {s u : System} {a : Contract.System} (step : Step t debug s u)
      → Inv t debug s
      → Agrees t s.queue a
      → AllowedFrom t a u.queue (follows (seen t debug step) [])
  Step-AllowedFrom (listing step alone free) inv agrees =
      Step-Allowed t size (Queue-Inv t size inv.queue) agrees Contract.start step
  Step-AllowedFrom {s} (enters i node addr fresh made ok free) inv agrees =
      let silent = made-returned i node s.queue.atomic (s.queue.pc i) made (fresh.1 i) in
      rw silent at (
        (Step-Allowed t size (Queue-Inv t size inv.queue) agrees Contract.start
          (Queue.own (Queue.comparing i node (λ _. fresh)))))
  Step-AllowedFrom {a} (parking k step inner) inv agrees = (a, Contract.start, agrees)
  Step-AllowedFrom (unparks i k w f free) inv agrees =
      Step-Allowed t size (Queue-Inv t size inv.queue) agrees Contract.start
        (Queue.own (Queue.unparks i k w f))
  Step-AllowedFrom (returns k {e} {p} {n} {unparked} w out) inv agrees =
      let was : unparked ≡ true =
        returned_was_unparked t size debug k unparked inv w (rw out refl) in
      Step-Allowed t size (Queue-Inv t size inv.queue) agrees Contract.start
        (Queue.own (Queue.returns k (rw was at w)))
