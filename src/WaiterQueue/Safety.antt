-- ===== src/WaiterQueue/Safety.antt =====
-- What the list of waiters promises in every reachable state.
use valet_parking.Prelude.{ℕ, ◌≤◌, ◌≡◌, ◌⊎◌, inl, inr, false, sym, ◌<◌, List, [], ◌∷◌, refl, arith}
use valet_parking.Word.{Target}
use valet_parking.WaiterQueue.{Pc, waiting, walking, unparking, pub_bits, first}
use valet_parking.WaiterQueue.System.{System, Reach}
use valet_parking.WaiterQueue.Chain.{Owner, shared, held, Place, nowhere, at, Listed, Linked}
use valet_parking.WaiterQueue.Invariant.{Inv, Holds}
use valet_parking.WaiterQueue.Steps.{Reach-Inv}

pub waiters_never_fault :
    (t : Target) (size : 1 ≤ t.usize_bytes) {s : System} → Reach t s → s.faulted ≡ false
waiters_never_fault t size r = (Reach-Inv t size r).no_fault

-- From the pointer, the fields `next` of nodes that have not been unparked lead to that of thread `i`.
pub data Reaches (pcs : ℕ → Pc) (i : ℕ) : ℕ → Type 0 where
  here : {p : ℕ} (e n : ℕ) → 0 < p → pcs i ≡ waiting e p n false → Reaches pcs i p
  there :
      {p : ℕ} (k e n : ℕ) → 0 < p → pcs k ≡ waiting e p n false → Reaches pcs i n → Reaches pcs i p

-- The thread is in the loop of `store_and_wake`, with the rest of its list at this pointer.
abbrev pub Walks : Pc → ℕ → Type 0
Walks (walking next) p = next ≡ p
Walks (unparking current next) p = current ≡ p
Walks pc p = ⊥

Listed-Reaches :
    (pcs : ℕ → Pc) (place : ℕ → Place) (o : Owner) (i p : ℕ) (is : List ℕ)
    → Linked pcs place o p is
    → Listed i is
    → Reaches pcs i p
Listed-Reaches pcs place o i p [] l x = absurd x
Listed-Reaches pcs place o i p (k ∷ ks) (node, l) (inl same) =
    here node.expected node.next node.nonnull (rw same node.waits)
Listed-Reaches pcs place o i p (k ∷ ks) (node, l) (inr x) =
    there k node.expected node.next node.nonnull node.waits
      (Listed-Reaches pcs place o i node.next ks l x)

Held-Reaches :
    (pcs : ℕ → Pc) (place : ℕ → Place) (i j : ℕ) (pc : Pc) (is : List ℕ)
    → Holds pcs place j pc is
    → Listed i is
    → (p : ℕ) × Walks pc p × Reaches pcs i p
Held-Reaches pcs place i j (walking p) is h x =
    (p, refl, Listed-Reaches pcs place (held j) i p is h x)
Held-Reaches pcs place i j (unparking p n) [] h x = absurd x
Held-Reaches pcs place i j (unparking p n) (k ∷ ks) (node, same, l) (inl e) =
    (p, refl, here node.expected node.next node.nonnull (rw e node.waits))
Held-Reaches pcs place i j (unparking p n) (k ∷ ks) (node, same, l) (inr x) = (
  p,
  refl,
  there k node.expected n node.nonnull (rw (sym same) node.waits)
      (Listed-Reaches pcs place (held j) i n ks l x),
)
Held-Reaches pcs place i j pc is h x = absurd (ground arith)

pub no_lost_waiter :
    (t : Target) (size : 1 ≤ t.usize_bytes) {s : System} (i : ℕ) {e p n : ℕ}
    → Reach t s
    → s.pc i ≡ waiting e p n false
    → ((e ≡ pub_bits t s.atomic) × Reaches s.pc i (first t s.atomic))
      ⊎ ((j : ℕ) × (q : ℕ) × Walks (s.pc j) q × Reaches s.pc i q)
no_lost_waiter t size {s} i {e} {p} {n} r w = go (inv.place i) refl
  where
    inv : Inv t s
    inv = Reach-Inv t size r

    go :
        (place : Place)
        → inv.place i ≡ place
        → ((e ≡ pub_bits t s.atomic) × Reaches s.pc i (first t s.atomic))
          ⊎ ((j : ℕ) × (q : ℕ) × Walks (s.pc j) q × Reaches s.pc i q)
    go nowhere x = absurd (inv.found i (rw w tt) x)
    go (at shared k) x = inl (
      inv.current i x w,
      Listed-Reaches s.pc inv.place shared i (first t s.atomic) (inv.chain shared) inv.linked
          (inv.listed i x),
    )
    go (at (held j) k) x =
        let (q, walks, reached) =
          Held-Reaches s.pc inv.place i j (s.pc j) (inv.chain (held j)) (inv.holds j)
            (inv.listed i x) in
        inr (j, q, walks, reached)
