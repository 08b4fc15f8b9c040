-- ===== src/OnceCell/Composed.antt =====
-- The cell on the Waiters of Posix does what the cell over the contract of `Waiters` does.
use valet_parking.Prelude.{
  ℕ, ◌≤◌, ◌≡◌, ◌≢◌, Bool, true, false, Option, none, some, refl, arith, Bool-cases, inl, inr,
}
use valet_parking.Prelude.Family.{update}
use valet_parking.Word.{Target}
use valet_parking.Contract as Waiters
use valet_parking.Contract.{Event, Traced, follows, signal}
use valet_parking.WaiterQueue.System as Queue
use valet_parking.WaiterQueue.Agreement.{Agrees, signal-Matches}
use valet_parking.PosixWaiters.System as Posix
use valet_parking.PosixWaiters.Invariant.{Inv, Step-Inv, Reach-Fits}
use valet_parking.PosixWaiters.Refinement.{seen, Step-AllowedFrom}
use valet_parking.OnceCell
use valet_parking.OnceCell.{access, incomplete, running, complete}
use valet_parking.OnceCell.System as Cell
use valet_parking.OnceCell.Kept.{Reach-Inv}
use valet_parking.OnceCell.Accesses.{exchanging}
use valet_parking.OnceCell.Safety.{touches, writes, answer, answers_lem, once_cell_is_sound}
use valet_parking.Prelude.{◌⊎◌}
use valet_parking.WaiterQueue.Steps.{Reach-Inv as Queue-Inv}
use valet_parking.PosixWaiters.Safety.{parker-Inv}
use valet_parking.OnceCell.Words.{public_lem}
use valet_parking.OnceCell.OnPosix.{
  System, exchanged_if, accesses, Step, call, accessing, reading_cell, writing_cell, storing_calls,
  waiting_calls, inside, storing_returns, waiting_returns, Reach, start, later,
}
use valet_parking.OnceCell.Following.{at, silent-Reach, event-Reach, Matches-outside, state-IsFree}

module _ {ℓ} {A : Type ℓ} (t : Target) (size : 1 ≤ t.usize_bytes) (debug : Bool) where
  -- The contract stands where the cell over it can have the same places and the same value.
  pub record Simulated (s : System A) : Type ℓ where
    pub contract : Waiters.System
    pub reach : Cell.Reach t (at t s.value contract s.pc)
    pub agrees : Agrees t s.waiters.queue contract
    pub inv : Inv t debug s.waiters

  exchanges-Simulated :
      {s : System A} (i : ℕ)
      → (access t s.waiters.queue.atomic (s.pc i)).exchanges ≡ true
      → (sim : Simulated s)
      → Cell.Reach t (
          at t s.value
            (Waiters.exchanged sim.contract (running t))
            (update s.pc i (access t s.waiters.queue.atomic (s.pc i)).pc))
      → Simulated (record s {
        waiters = exchanged_if t true s.waiters;
        pc = update s.pc i (access t s.waiters.queue.atomic (s.pc i)).pc;
      })
  exchanges-Simulated {s} i made sim r =
      let inv = Reach-Inv t size sim.reach in
      let (zero, idle, _, _) =
        exchanging t size s.value inv.phase i s.waiters.queue.atomic (sim.contract.pc i) (s.pc i)
          (inv.threads i) made in
      let out = Matches-outside t (s.waiters.queue.pc i) _ (sim.agrees.pcs i) idle in
      record {
        contract = Waiters.exchanged sim.contract (running t);
        reach = r;
        agrees = record {
          reads = (public_lem t size 1 (omega arith), λ _. refl);
          pcs = λ k. signal-Matches t (s.waiters.queue.pc k) (sim.contract.pc k) (sim.agrees.pcs k);
        };
        inv = record {
          queue = Queue.later sim.inv.queue (
              Queue.exchanges i (running t) out (rw zero (state-IsFree t size 0 (omega arith)))
                (state-IsFree t size 1 (omega arith)));
          parkers = sim.inv.parkers;
          linked = sim.inv.linked;
        };
      }

  accesses-Simulated : {s : System A} (i : ℕ) → Simulated s → Simulated (accesses t debug s i)
  accesses-Simulated {s} i sim =
      let r = Cell.later sim.reach (Cell.accessing i s.waiters.queue.atomic sim.agrees.reads) in
      elim (Bool-cases (access t s.waiters.queue.atomic (s.pc i)).exchanges) [
        | inl made ↦ rw made (exchanges-Simulated i made sim (rw made at r))
        | inr none_made ↦ rw none_made (record {
          contract = sim.contract;
          reach = rw none_made at r;
          agrees = sim.agrees;
          inv = sim.inv;
        })
      ]

  -- The cell moves alone.
  moves-Simulated :
      {s : System A} (value : Option A) (pc : ℕ → OnceCell.Pc A) (sim : Simulated s)
      → Cell.Step t (at t s.value sim.contract s.pc) (at t value sim.contract pc)
      → Simulated (record s { value = value; pc = pc })
  moves-Simulated value pc sim step = record {
    contract = sim.contract;
    reach = Cell.later sim.reach step;
    agrees = sim.agrees;
    inv = sim.inv;
  }

  -- The Waiters move, and the cell with a call or a return.
  serves-Simulated :
      {s : System A} {w : Posix.System} (step : Posix.Step t debug s.waiters w) {event : Event}
      (next : ℕ → OnceCell.Pc A)
      → seen t debug step ≡ some event
      → ((x y : Waiters.System)
          → Waiters.Step x (some event) y
          → Cell.Step t (at t s.value x s.pc) (at t s.value y next))
      → Simulated s
      → Simulated (record s { waiters = w; pc = next })
  serves-Simulated {s} step next e moves sim =
      let (b, run, agrees) = Step-AllowedFrom t size debug step sim.inv sim.agrees in
      record {
        contract = b;
        reach = event-Reach t s.value s.pc next (rw e at run) refl moves sim.reach;
        agrees = agrees;
        inv = Step-Inv t size debug step sim.inv;
      }

  silent-Simulated :
      {s : System A} {w : Posix.System} (step : Posix.Step t debug s.waiters w)
      → seen t debug step ≡ none
      → Simulated s
      → Simulated (record s { waiters = w })
  silent-Simulated {s} step e sim =
      let (b, run, agrees) = Step-AllowedFrom t size debug step sim.inv sim.agrees in
      record {
        contract = b;
        reach = silent-Reach t s.value s.pc (rw e at run) refl sim.reach;
        agrees = agrees;
        inv = Step-Inv t size debug step sim.inv;
      }

  Step-Simulated : {s u : System A} → Step t debug s u → Simulated s → Simulated u
  Step-Simulated {s} (call i init rest) sim = moves-Simulated s.value _ sim (Cell.call i init rest)
  Step-Simulated (accessing i) sim = accesses-Simulated i sim
  Step-Simulated {s} (reading_cell i) sim = moves-Simulated s.value _ sim (Cell.reading_cell i)
  Step-Simulated (writing_cell i {value} w) sim =
      moves-Simulated (some value) _ sim (Cell.writing_cell i w)
  Step-Simulated (storing_calls i step w e) sim =
      serves-Simulated step _ e (λ x y st. Cell.storing_calls i w st) sim
  Step-Simulated (waiting_calls i step w e) sim =
      serves-Simulated step _ e (λ x y st. Cell.waiting_calls i w st) sim
  Step-Simulated (inside step e) sim = silent-Simulated step e sim
  Step-Simulated (storing_returns i step w e) sim =
      serves-Simulated step _ e (λ x y st. Cell.storing_returns i w st) sim
  Step-Simulated (waiting_returns i step w e) sim =
      serves-Simulated step _ e (λ x y st. Cell.waiting_returns i w st) sim

  pub Reach-Simulated : {s : System A} → Reach t debug s → Simulated s
  Reach-Simulated (start addr ok) = record {
    contract = Waiters.init (incomplete t);
    reach = Cell.start;
    agrees = record { reads = (public_lem t size 0 (omega arith), λ _. refl); pcs = λ k. refl };
    inv =
        Reach-Fits t size debug
          (Posix.start (incomplete t) addr (state-IsFree t size 0 (omega arith)) ok);
  }
  Reach-Simulated (later r step) = Step-Simulated step (Reach-Simulated r)

  -- In every state that a OnceCell on the Waiters on Posix can reach, with any number of threads
  -- that call get and get_or_init, the accesses of the atomic, the list, its Parkers and the
  -- pthread calls interleaved: no pointer to a node or to a PosixParker that was gone has been
  -- used, no assertion or unwrap of the cell has failed, a call that has returned a value has
  -- returned the one that the cell holds, and whenever a thread is about to write the cell, it is
  -- empty and no other thread is about to read or write it.
  pub posix_cell_is_sound :
      {s : System A} (i k : ℕ)
      → Reach t debug s
      → (s.waiters.queue.faulted ≡ false)
        × ((s.waiters.parker k).faulted ≡ false)
        × (s.pc k ≢ OnceCell.panicked)
        × ((answer (s.pc k) ≡ none) ⊎ (answer (s.pc k) ≡ s.value))
        × ((writes (s.pc i) ≡ false) ⊎ ((s.value ≡ none) × ((i ≡ k) ⊎ (touches (s.pc k) ≡ false))))
  posix_cell_is_sound {s} i k r =
      let sim = Reach-Simulated r in
      let (calm, alone) = once_cell_is_sound t size i k sim.reach in
      (
        (Queue-Inv t size sim.inv.queue).no_fault,
        (parker-Inv t size debug k sim.inv).no_fault,
        calm,
        answers_lem t size k sim.reach,
        alone,
      )
