-- ===== src/WaiterQueue/Taking.antt =====
-- `store_and_wake` takes the list, and unparks the thread at its head.
use valet_parking.Prelude.{ℕ, sym, ap, ◌≤◌, ◌≡◌, ◌≢◌, List, [], refl, arith}
use valet_parking.Prelude.Family.{update, update_elim}
use valet_parking.Word.{Target}
use valet_parking.Reserved.{IsFree}
use valet_parking.WaiterQueue.{Pc, swapping, walking, first}
use valet_parking.WaiterQueue.System.{System, HasNode}
use valet_parking.WaiterQueue.Chain.{
  Owner, shared, held, Place, nowhere, at, Listed, Linked, Linked-carried, size,
}
use valet_parking.WaiterQueue.Invariant.{IsWaiting, Holds, Stores, Inv}
use valet_parking.WaiterQueue.Words.{first-IsFree}
use valet_parking.WaiterQueue.Moves.{Holds-carried, Holds-none, unmoved}

-- The lists after thread `i` has taken that on the atomic, and the places in them.
abbrev taken : ℕ → (Owner → List ℕ) → Owner → List ℕ
taken i chain shared = []
taken i chain (held j) = update (λ k. chain (held k)) i (chain shared) j

abbrev retaken : ℕ → Place → Place
retaken i (at shared r) = at (held i) r
retaken i (at (held j) r) = at (held j) r
retaken i nowhere = nowhere

Listed-taken :
    (k i : ℕ) (chain : Owner → List ℕ) (p : Place) (o : Owner) {r : ℕ}
    → chain (held i) ≡ []
    → ((u : Owner) → p ≡ at u r → Listed k (chain u))
    → retaken i p ≡ at o r
    → Listed k (taken i chain o)
Listed-taken k i chain (at shared r) shared empty l e = absurd (ground arith)
Listed-taken k i chain (at shared r) (held j) empty l e =
    update_elim (Listed k) (λ (x : ℕ). chain (held x)) i (chain shared) j
      (λ same. l shared (ground arith)) (λ other. absurd (ground arith))
Listed-taken k i chain (at (held h) r) shared empty l e = absurd (ground arith)
Listed-taken k i chain (at (held h) r) (held j) empty l e =
    update_elim (Listed k) (λ (x : ℕ). chain (held x)) i (chain shared) j
      (λ same. absurd (rw empty at (l (held i) (ground arith))))
      (λ other. l (held j) (ground arith))
Listed-taken k i chain nowhere o empty l e = absurd (ground arith)

retaken-nowhere : (i : ℕ) (p : Place) → retaken i p ≡ nowhere → p ≡ nowhere
retaken-nowhere i nowhere e = refl
retaken-nowhere i (at shared r) e = absurd (ground arith)
retaken-nowhere i (at (held j) r) e = absurd (ground arith)

retaken-shared : (i : ℕ) (p : Place) {r : ℕ} → retaken i p ≢ at shared r
retaken-shared i nowhere e = ground arith
retaken-shared i (at shared r) e = ground arith
retaken-shared i (at (held j) r) e = ground arith

pub swaps-Inv :
    (t : Target) (size : 1 ≤ t.usize_bytes) {s : System} (inv : Inv t s) (i : ℕ) {new : ℕ}
    → s.pc i ≡ swapping new
    → Inv t (record {
      atomic = new;
      pc = update s.pc i (walking (first t s.atomic));
      faulted = s.faulted;
    })
swaps-Inv t size {s} inv i {new} w = record {
  no_fault = inv.no_fault;
  word = free.word;
  place = place;
  chain = taken i inv.chain;
  linked = first-IsFree t size new free;
  holds = λ j.
      update_elim (λ (pc : Pc). Holds pcs place j pc (taken i inv.chain (held j))) s.pc i next j
        (λ same. rw (sym same) (
          update_elim (Linked pcs place (held i) (first t s.atomic)) (λ (x : ℕ). inv.chain (held x))
            i (inv.chain shared) i
            (λ _.
              Linked-carried _ (inv.chain shared)
                (λ k r q below. (unmoved inv i next still k q, ap (retaken i) q)) inv.linked)
            (λ no. absurd (no refl))))
        (λ other.
          update_elim (Holds pcs place j (s.pc j)) (λ (x : ℕ). inv.chain (held x)) i
            (inv.chain shared) j (λ same. absurd (other same))
            (λ _.
              Holds-carried (s.pc j) (inv.chain (held j))
                (λ k r q. (unmoved inv i next still k q, ap (retaken i) q)) (inv.holds j)));
  placed = λ k q. ground (arith, inv.placed k);
  found = λ k q e.
      inv.found k
        (update_elim (λ (pc : Pc). IsWaiting pc → IsWaiting (s.pc k)) s.pc i next k
          (λ same a. absurd a) (λ other a. a) q)
        (retaken-nowhere i (inv.place k) e);
  listed = λ k {o}. Listed-taken k i inv.chain (inv.place k) o empty (λ u q. inv.listed k q);
  apart = λ k l p.
      update_elim (λ (pc : Pc). HasNode pc p → HasNode (pcs l) p → k ≡ l) s.pc i next k
        (λ same a. absurd a)
        (λ other a.
          update_elim (λ (pc : Pc). HasNode pc p → k ≡ l) s.pc i next l (λ same b. absurd b)
            (λ other b. inv.apart k l p a b));
  current = λ k q x. absurd (retaken-shared i (inv.place k) q);
  stores = λ k. update_elim (Stores t) s.pc i next k (λ same. tt) (λ other. inv.stores k);
}
  where
    free : IsFree t new
    free = rw w at (inv.stores i)

    next : Pc
    next = walking (first t s.atomic)

    pcs : ℕ → Pc
    pcs = update s.pc i next

    place : ℕ → Place
    place k = retaken i (inv.place k)

    empty : inv.chain (held i) ≡ []
    empty =
        Holds-none s.pc inv.place i (s.pc i) (inv.chain (held i)) (λ p x. ground (arith, w))
          (λ p n x. ground (arith, w)) (inv.holds i)

    still : IsWaiting (s.pc i) → ⊥
    still x = rw w at x
