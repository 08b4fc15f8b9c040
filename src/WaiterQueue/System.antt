-- ===== src/WaiterQueue/System.antt =====
-- Any number of threads that wait on one atomic, and that store to it and wake the others.
use valet_parking.Prelude.{ℕ, ◌%◌, ◌<◌, ◌≡◌, bit_and, Bool, true, false}
use valet_parking.Prelude.Family.{update}
use valet_parking.Word.{Target, usize_mod, not_usize}
use valet_parking.Reserved.{reserved_mask, IsFree}
use valet_parking.WaiterQueue.{
  Pc, outside, loading, waiting, reloading, swapping, walking, unparking, compare_and_wait,
  store_and_wake, walk, unpark,
}

-- `faulted` says whether `store_and_wake` used a pointer to a node that no longer was.
pub record System : Type 0 where
  pub atomic : ℕ
  pub pc : ℕ → Pc
  pub faulted : Bool

-- The address of a node: `#[repr(align(32))]`, and no object lies at the null pointer.
pub record IsNode (t : Target) (a : ℕ) : Type 0 where
  pub aligned : a % 32 ≡ 0
  pub nonnull : 0 < a
  pub fits : a < usize_mod t

-- The thread has a node at this address.
abbrev pub HasNode : Pc → ℕ → Type 0
HasNode (waiting expected node next unparked) p = node ≡ p
HasNode pc p = ⊥

-- The node that `store_and_wake` uses next.
abbrev pub Uses : Pc → ℕ → Type 0
Uses (walking next) p = (next ≡ p) × (0 < p)
Uses (unparking current next) p = current ≡ p
Uses pc p = ⊥

abbrev pub moves : System → ℕ → Pc → System
moves s i pc = record s { pc = update s.pc i pc }

abbrev pub init : ℕ → System
init a = record { atomic = a; pc = λ _. outside; faulted = false }

module _ (t : Target) where
  abbrev pub compares : System → ℕ → ℕ → System
  compares s i node = record s {
    atomic = (compare_and_wait t node s.atomic (s.pc i)).atomic;
    pc = update s.pc i (compare_and_wait t node s.atomic (s.pc i)).pc;
  }

  abbrev pub swaps : System → ℕ → System
  swaps s i = record s {
    atomic = (store_and_wake t s.atomic (s.pc i)).atomic;
    pc = update s.pc i (store_and_wake t s.atomic (s.pc i)).pc;
  }

  -- The steps of calls that are under way.
  pub data Own (s : System) : System → Type 0 where
    -- in `compare_and_wait`; where a node is made, it lies at `node`, apart from the others
    comparing :
        (i node : ℕ)
        → (HasNode (compare_and_wait t node s.atomic (s.pc i)).pc node
            → IsNode t node × ((k : ℕ) → HasNode (s.pc k) node → ⊥))
        → Own s (compares s i node)
    returns : (i : ℕ) {e p n : ℕ} → s.pc i ≡ waiting e p n true → Own s (moves s i (reloading e))
    -- in `store_and_wake`
    storing : (i : ℕ) → Own s (swaps s i)
    reads :
        (i k : ℕ) {p e n : ℕ} {unparked : Bool}
        → s.pc i ≡ walking p
        → s.pc k ≡ waiting e p n unparked
        → 0 < p
        → Own s (moves s i (walk n (s.pc i)))
    ends : (i : ℕ) → s.pc i ≡ walking 0 → Own s (moves s i (walk 0 (s.pc i)))
    unparks :
        (i k : ℕ) {p e m n : ℕ} {unparked : Bool}
        → s.pc i ≡ unparking p n
        → s.pc k ≡ waiting e p m unparked
        → Own s (record s { pc = update (update s.pc k (unpark (s.pc k))) i (walking n) })

  -- All steps: those, calls of `Waiters::compare_and_wait` and `Waiters::store_and_wake`, and the use
  -- of a pointer where there is no node.
  pub data Step (s : System) : System → Type 0 where
    own : {u : System} → Own s u → Step s u
    call_wait :
        (i expected : ℕ)
        → s.pc i ≡ outside
        → Step s (moves s i (loading (bit_and expected (not_usize t (reserved_mask t)))))
    call_store : (i new : ℕ) → s.pc i ≡ outside → IsFree t new → Step s (moves s i (swapping new))
    -- A caller may use the atomic itself: from a value with no reserved bit to another.
    exchanges :
        (i new : ℕ)
        → s.pc i ≡ outside
        → IsFree t s.atomic
        → IsFree t new
        → Step s (record s { atomic = new })
    faults :
        (i p : ℕ)
        → Uses (s.pc i) p
        → ((k : ℕ) → HasNode (s.pc k) p → ⊥)
        → Step s (record s { faulted = true })

  pub data Reach : System → Type 0 where
    start : (a : ℕ) → IsFree t a → Reach (init a)
    later : {s u : System} → Reach s → Step s u → Reach u

  -- A run of calls that are under way.
  pub data Run : System → System → Type 0 where
    done : (s : System) → Run s s
    next : {s u v : System} → Own s u → Run u v → Run s v
