-- ===== src/WaiterQueue/Invariant.antt =====
-- What holds in every reachable state: the lists of nodes are whole, disjoint, and hold every thread
-- that waits and has not been unparked.
use valet_parking.Prelude.{ℕ, ◌<◌, ◌≡◌, ◌≢◌, false, List, [], ◌∷◌}
use valet_parking.Word.{Target, usize_mod}
use valet_parking.Reserved.{IsFree}
use valet_parking.WaiterQueue.{Pc, waiting, swapping, walking, unparking, pub_bits, first}
use valet_parking.WaiterQueue.System.{System, HasNode}
use valet_parking.WaiterQueue.Chain.{
  Owner, shared, held, Place, nowhere, at, Listed, Node, Linked, size,
}

abbrev pub IsWaiting : Pc → Type 0
IsWaiting (waiting expected node next false) = Unit
IsWaiting pc = ⊥

-- The list that a thread has taken, as its local variables hold it.
abbrev pub Holds : (ℕ → Pc) → (ℕ → Place) → (thread : ℕ) → Pc → List ℕ → Type 0
Holds pcs place j (walking p) is = Linked pcs place (held j) p is
Holds pcs place j (unparking p n) [] = ⊥
Holds pcs place j (unparking p n) (k ∷ ks) =
    (node : Node pcs place (held j) p k (size ks)) × (node.next ≡ n)
    × Linked pcs place (held j) n ks
Holds pcs place j pc is = is ≡ []

abbrev pub Stores : Target → Pc → Type 0
Stores t (swapping new) = IsFree t new
Stores t pc = Unit

pub record Inv (t : Target) (s : System) : Type 0 where
  pub no_fault : s.faulted ≡ false
  pub word : s.atomic < usize_mod t
  pub place : ℕ → Place
  pub chain : Owner → List ℕ
  pub linked : Linked s.pc place shared (first t s.atomic) (chain shared)
  pub holds : (j : ℕ) → Holds s.pc place j (s.pc j) (chain (held j))
  pub placed : (i : ℕ) → place i ≢ nowhere → IsWaiting (s.pc i)
  pub found : (i : ℕ) → IsWaiting (s.pc i) → place i ≢ nowhere
  pub listed : (i : ℕ) {o : Owner} {r : ℕ} → place i ≡ at o r → Listed i (chain o)
  pub apart : (i k p : ℕ) → HasNode (s.pc i) p → HasNode (s.pc k) p → i ≡ k
  -- Who waits in the list on the atomic waits for the value that it has.
  pub current :
      (i : ℕ) {r e p n : ℕ}
      → place i ≡ at shared r
      → s.pc i ≡ waiting e p n false
      → e ≡ pub_bits t s.atomic
  pub stores : (i : ℕ) → Stores t (s.pc i)
