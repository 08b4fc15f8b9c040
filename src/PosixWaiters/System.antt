-- ===== src/PosixWaiters/System.antt =====
-- Any number of threads that wait on one atomic and that store to it, each node with its Parker.
use valet_parking.Prelude.{ℕ, ◌≡◌, Bool, true, false}
use valet_parking.Prelude.Family.{update}
use valet_parking.Word.{Target}
use valet_parking.Reserved.{IsFree}
use valet_parking.WaiterQueue.{Pc, waiting, reloading, walking, unparking, compare_and_wait, unpark}
use valet_parking.WaiterQueue.System as Queue
use valet_parking.WaiterQueue.System.{IsNode, HasNode}
use valet_parking.PosixParker.{outside, locking, idle}
use valet_parking.PosixParker.System as Parker
use valet_parking.PosixParker.System.{IsAddress}

-- `parker k` is the Parker in the node of thread `k`, or in the last one that it had.
pub record System : Type 0 where
  pub queue : Queue.System
  pub parker : ℕ → Parker.System

abbrev pub init : (word addr : ℕ) → System
init word addr = record { queue = Queue.init word; parker = λ _. Parker.init false addr }

-- `Parker::new()`, and the call of `park(None)` on it, whose `PosixParker` lies at `addr`.
abbrev pub parked_at : ℕ → Parker.System
parked_at addr = record {
  atomic = 0;
  parker = locking false;
  unparker = λ _. idle;
  addr = addr;
  mutex = Parker.free;
  limits = false;
  faulted = false;
}

abbrev pub has_node : Pc → Bool
has_node (waiting expected node next unparked) = true
has_node pc = false

-- The thread is not in a call of `unpark`.
abbrev pub IsFreeToMove : System → ℕ → Type 0
IsFreeToMove s i = (k : ℕ) → (s.parker k).unparker i ≡ idle

module _ (t : Target) where
  -- The steps of the list that make a node, or that call the Parker in one.
  abbrev pub uses_parker_own : {q r : Queue.System} → Queue.Own t q r → Bool
  uses_parker_own {q} (Queue.comparing i node made) =
      has_node (compare_and_wait t node q.atomic (q.pc i)).pc
  uses_parker_own (Queue.returns i w) = true
  uses_parker_own (Queue.unparks i k w f) = true
  uses_parker_own o = false

  abbrev pub uses_parker : {q r : Queue.System} → Queue.Step t q r → Bool
  uses_parker (Queue.own o) = uses_parker_own o
  uses_parker step = false

  abbrev pub actor_own : {q r : Queue.System} → Queue.Own t q r → ℕ
  actor_own (Queue.comparing i node made) = i
  actor_own (Queue.returns i w) = i
  actor_own (Queue.storing i) = i
  actor_own (Queue.reads i k w f positive) = i
  actor_own (Queue.ends i w) = i
  actor_own (Queue.unparks i k w f) = i

  abbrev pub actor : {q r : Queue.System} → Queue.Step t q r → ℕ
  actor (Queue.own o) = actor_own o
  actor (Queue.call_wait i expected w) = i
  actor (Queue.call_store i new w free) = i
  actor (Queue.exchanges i new w old free) = i
  actor (Queue.faults i p used gone) = i

  module _ (debug : Bool) where
    -- A call of `park` or of `unpark` comes from the list.
    abbrev pub is_call : {p r : Parker.System} → Parker.Step t debug p r → Bool
    is_call (Parker.call_park limit a w ok may) = true
    is_call (Parker.call_unpark i w) = true
    is_call step = false

    pub data Step (s : System) : System → Type 0 where
      -- the list alone
      listing :
          {q : Queue.System} (step : Queue.Step t s.queue q)
          → uses_parker step ≡ false
          → IsFreeToMove s (actor step)
          → Step s (record s { queue = q })
      -- the exchange that puts in a node, and the call of `park` on its Parker
      enters :
          (i node addr : ℕ)
          → IsNode t node × ((k : ℕ) → HasNode (s.queue.pc k) node → ⊥)
          → HasNode (compare_and_wait t node s.queue.atomic (s.queue.pc i)).pc node
          → IsAddress t addr
          → IsFreeToMove s i
          → Step s (record {
            queue = Queue.compares t s.queue i node;
            parker = update s.parker i (parked_at addr);
          })
      -- one step in a call of `park` or of `unpark` on the Parker of thread `k`
      parking :
          (k : ℕ) {p : Parker.System} (step : Parker.Step t debug (s.parker k) p)
          → is_call step ≡ false
          → Step s (record s { parker = update s.parker k p })
      -- thread `i` calls `unpark` on the node of thread `k`
      unparks :
          (i k : ℕ) {p e m n : ℕ} {unparked : Bool}
          → s.queue.pc i ≡ unparking p n
          → s.queue.pc k ≡ waiting e p m unparked
          → IsFreeToMove s i
          → Step s (record {
            queue = record s.queue {
              pc = update (update s.queue.pc k (unpark (s.queue.pc k))) i (walking n);
            };
            parker = update s.parker k (Parker.unparks_by t debug i (s.parker k));
          })
      -- `park` has returned in thread `k`
      returns :
          (k : ℕ) {e p n : ℕ} {unparked : Bool}
          → s.queue.pc k ≡ waiting e p n unparked
          → (s.parker k).parker ≡ outside
          → Step s (record s { queue = Queue.moves s.queue k (reloading e) })

    pub data Reach : System → Type 0 where
      start : (word addr : ℕ) → IsFree t word → IsAddress t addr → Reach (init word addr)
      later : {s u : System} → Reach s → Step s u → Reach u
