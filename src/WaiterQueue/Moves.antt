-- ===== src/WaiterQueue/Moves.antt =====
-- The steps in which no thread starts or stops to wait in a list keep the invariant.
use valet_parking.Prelude.{ℕ, ◌∙◌, sym, Bool, ◌<◌, ◌≡◌, ◌≢◌, List, [], ◌∷◌, refl, arith}
use valet_parking.Prelude.Family.{update, update_elim}
use valet_parking.Word.{Target}
use valet_parking.WaiterQueue.{
  Pc, outside, loading, trying, waiting, reloading, swapping, walking, unparking,
}
use valet_parking.WaiterQueue.System.{System, HasNode, moves}
use valet_parking.WaiterQueue.Chain.{
  Owner, held, Place, nowhere, at, Linked, Linked-carried, Linked-null, size,
}
use valet_parking.WaiterQueue.Invariant.{IsWaiting, Holds, Stores, Inv}

-- The lists that the other threads have taken survive what leaves their nodes as they are.
pub Holds-carried :
    {pcs qcs : ℕ → Pc} {place qlace : ℕ → Place} {j : ℕ} (pc : Pc) (is : List ℕ)
    → ((i r : ℕ) → place i ≡ at (held j) r → (qcs i ≡ pcs i) × (qlace i ≡ at (held j) r))
    → Holds pcs place j pc is
    → Holds qcs qlace j pc is
Holds-carried (walking p) is same h = Linked-carried p is (λ i r e below. same i r e) h
Holds-carried {qcs = qcs} {qlace = qlace} {j = j} (unparking p n) (k ∷ ks) same (node, e, l) =
    let (waits, placed) = same k (size ks) node.placed in
    (
      record {
        expected = node.expected;
        next = node.next;
        waits = cc;
        placed = placed;
        nonnull = node.nonnull;
      },
      e,
      Linked-carried n ks (λ i r f below. same i r f) l,
    )
Holds-carried (unparking p n) [] same h = h
Holds-carried outside is same h = h
Holds-carried (loading e) is same h = h
Holds-carried (trying e c) is same h = h
Holds-carried (waiting e p n b) is same h = h
Holds-carried (reloading e) is same h = h
Holds-carried (swapping new) is same h = h

-- A thread that is in a list stands where it waits, and is not the one that moves.
pub unmoved :
    {t : Target} {s : System} (inv : Inv t s) (i : ℕ) (new : Pc)
    → (IsWaiting (s.pc i) → ⊥)
    → (k : ℕ) {o : Owner} {r : ℕ} → inv.place k ≡ at o r
    → update s.pc i new k ≡ s.pc k
unmoved inv i new still k e = ground (arith, inv.placed k)

pub moves-Inv :
    {t : Target} {s : System} (inv : Inv t s) (i : ℕ) (new : Pc)
    → (IsWaiting (s.pc i) → ⊥)
    → (IsWaiting new → ⊥)
    → ((p : ℕ) → HasNode new p → ⊥)
    → Stores t new
    → Holds s.pc inv.place i new (inv.chain (held i))
    → Inv t (moves s i new)
moves-Inv {t = t} {s = s} inv i new still idle no_node stores holds = record {
  no_fault = inv.no_fault;
  word = inv.word;
  place = inv.place;
  chain = inv.chain;
  linked = Linked-carried _ _ (λ k r e below. (unmoved inv i new still k e, e)) inv.linked;
  holds = λ j.
      update_elim (λ (pc : Pc). Holds (update s.pc i new) inv.place j pc (inv.chain (held j))) s.pc
        i new j
        (λ same. rw (sym same) (
          Holds-carried new (inv.chain (held i)) (λ k r e. (unmoved inv i new still k e, e)) holds))
        (λ other.
          Holds-carried (s.pc j) (inv.chain (held j)) (λ k r e. (unmoved inv i new still k e, e))
            (inv.holds j));
  placed = λ k e. ground (arith, inv.placed k);
  found = λ k.
      update_elim (λ (pc : Pc). IsWaiting pc → inv.place k ≢ nowhere) s.pc i new k
        (λ same w. absurd (idle w)) (λ other. inv.found k);
  listed = inv.listed;
  apart = λ k l p.
      update_elim (λ (pc : Pc). HasNode pc p → HasNode (update s.pc i new l) p → k ≡ l) s.pc i new k
        (λ same a. absurd (no_node p a))
        (λ other a.
          update_elim (λ (pc : Pc). HasNode pc p → k ≡ l) s.pc i new l
            (λ same b. absurd (no_node p b)) (λ other b. inv.apart k l p a b));
  current = λ k e f. inv.current k e (sym (unmoved inv i new still k e) ∙ f);
  stores = λ k. update_elim (Stores t) s.pc i new k (λ same. stores) (λ other. inv.stores k);
}

-- A thread that walks no list has none.
pub Holds-none :
    (pcs : ℕ → Pc) (place : ℕ → Place) (j : ℕ) (pc : Pc) (is : List ℕ)
    → ((p : ℕ) → pc ≢ walking p)
    → ((p n : ℕ) → pc ≢ unparking p n)
    → Holds pcs place j pc is
    → is ≡ []
Holds-none pcs place j (walking p) is w u h = absurd (w p refl)
Holds-none pcs place j (unparking p n) is w u h = absurd (u p n refl)
Holds-none pcs place j outside is w u h = h
Holds-none pcs place j (loading e) is w u h = h
Holds-none pcs place j (trying e c) is w u h = h
Holds-none pcs place j (waiting e p n b) is w u h = h
Holds-none pcs place j (reloading e) is w u h = h
Holds-none pcs place j (swapping new) is w u h = h

-- The thread in `store_and_wake` reads the node of the thread at the head of its list.
pub reads-Inv :
    {t : Target} {s : System} (inv : Inv t s) (i k : ℕ) {p e n : ℕ} {unparked : Bool}
    → s.pc i ≡ walking p
    → s.pc k ≡ waiting e p n unparked
    → 0 < p
    → Inv t (moves s i (unparking p n))
reads-Inv {s = s} inv i k {p} {e} {n} w f positive =
    moves-Inv inv i (unparking p n) (λ x. rw w at x) (λ x. x) (λ q x. x) tt
      (head (inv.chain (held i)) (rw w at (inv.holds i)))
  where
    head :
        (is : List ℕ)
        → Linked s.pc inv.place (held i) p is
        → Holds s.pc inv.place i (unparking p n) is
    head [] l = absurd (omega arith)
    head (j ∷ js) (node, l) =
        let same : j ≡ k = inv.apart j k p (rw node.waits refl) (rw f refl) in
        let same_next : node.next ≡ n = ground (arith, node.waits) in
        (node, same_next, rw (sym same_next) l)

pub ends-Inv :
    {t : Target} {s : System} (inv : Inv t s) (i : ℕ)
    → s.pc i ≡ walking 0
    → Inv t (moves s i outside)
ends-Inv {s = s} inv i w =
    moves-Inv inv i outside (λ x. rw w at x) (λ x. x) (λ q x. x) tt
      (Linked-null s.pc inv.place (held i) (inv.chain (held i)) (rw w at (inv.holds i)))
