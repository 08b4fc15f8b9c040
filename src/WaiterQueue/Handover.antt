-- ===== src/WaiterQueue/Handover.antt =====
-- The steps that put a node into a list, take a list, or take a node out keep the invariant.
use valet_parking.Prelude.{ℕ, ◌∙◌, sym, false, ◌≤◌, ◌≡◌, List, ◌∷◌, inl, inr, arith, ℕ_discrete}
use valet_parking.Prelude.Family.{update, update_elim}
use valet_parking.Word.{Target}
use valet_parking.WaiterQueue.{Pc, trying, waiting, pub_bits, first}
use valet_parking.WaiterQueue.System.{System, HasNode, IsNode}
use valet_parking.WaiterQueue.Chain.{Owner, shared, held, Place, at, Listed, Linked-carried, size}
use valet_parking.WaiterQueue.Invariant.{IsWaiting, Holds, Stores, Inv}
use valet_parking.WaiterQueue.Words.{linked, linked-fits, first-linked, pub_bits-linked}
use valet_parking.WaiterQueue.Moves.{Holds-carried, Holds-none, unmoved}

abbrev pushed : ℕ → (Owner → List ℕ) → Owner → List ℕ
pushed i chain shared = i ∷ chain shared
pushed i chain (held j) = chain (held j)

Listed-pushed :
    (k i : ℕ) (chain : Owner → List ℕ) (o : Owner)
    → Listed k (chain o)
    → Listed k (pushed i chain o)
Listed-pushed k i chain shared l = inr l
Listed-pushed k i chain (held j) l = l

module _ (t : Target) (positive : 1 ≤ t.usize_bytes) where
  -- `compare_and_wait` puts the node of its thread at the head of the list.
  pub enqueues-Inv :
      {s : System} (inv : Inv t s) (i node : ℕ) {e : ℕ}
      → s.pc i ≡ trying e s.atomic
      → pub_bits t s.atomic ≡ e
      → IsNode t node
      → ((k : ℕ) → HasNode (s.pc k) node → ⊥)
      → Inv t (record {
        atomic = linked t s.atomic node;
        pc = update s.pc i (waiting e node (first t s.atomic) false);
        faulted = s.faulted;
      })
  enqueues-Inv {s} inv i node {e} w same_bits isn fresh = record {
    no_fault = inv.no_fault;
    word = linked-fits t positive s.atomic node inv.word isn;
    place = place;
    chain = pushed i inv.chain;
    linked = rw (first-linked t positive s.atomic node inv.word isn) (
      record {
        expected = e;
        next = first t s.atomic;
        waits = ground arith;
        placed = ground arith;
        nonnull = isn.nonnull;
      },
      Linked-carried _ (inv.chain shared) (λ k r q below. carried k q) inv.linked,
    );
    holds = λ j.
        update_elim (λ (pc : Pc). Holds pcs place j pc (inv.chain (held j))) s.pc i new j
          (λ same.
            Holds-none s.pc inv.place j (s.pc j) (inv.chain (held j))
              (λ p x. ground (arith, w, same)) (λ p n x. ground (arith, w, same)) (inv.holds j))
          (λ other.
            Holds-carried (s.pc j) (inv.chain (held j)) (λ k r q. carried k q) (inv.holds j));
    placed = λ k q. ground (arith, inv.placed k);
    found = λ k q. ground (arith, inv.found k);
    listed = λ k {o} {r}.
        update_elim (λ (x : Place). x ≡ at o r → Listed k (pushed i inv.chain o)) inv.place i
          (at shared (size (inv.chain shared))) k
          (λ same q. let e : shared ≡ o = ground (arith, q) in rw (sym e) (inl (sym same)))
          (λ other q. Listed-pushed k i inv.chain o (inv.listed k q));
    apart = λ k l p.
        update_elim (λ (pc : Pc). HasNode pc p → HasNode (pcs l) p → k ≡ l) s.pc i new k
          (λ same a.
            update_elim (λ (pc : Pc). HasNode pc p → k ≡ l) s.pc i new l
              (λ same' b. sym same ∙ same') (λ other b. absurd (fresh l (rw (sym a) at b))))
          (λ other a.
            update_elim (λ (pc : Pc). HasNode pc p → k ≡ l) s.pc i new l
              (λ same b. absurd (fresh k (rw (sym b) at a))) (λ other b. inv.apart k l p a b));
    current = λ k {r} q x.
        rw (pub_bits-linked t positive s.atomic node inv.word isn) (elim (ℕ_discrete i k) [
          | yes same ↦ ground (arith, same_bits)
          | no other ↦ inv.current k {r = r} (ground (arith, q)) (sym (ground arith) ∙ x)
        ]);
    stores = λ k. update_elim (Stores t) s.pc i new k (λ same. tt) (λ other. inv.stores k);
  }
    where
      new : Pc
      new = waiting e node (first t s.atomic) false

      pcs : ℕ → Pc
      pcs = update s.pc i new

      place : ℕ → Place
      place = update inv.place i (at shared (size (inv.chain shared)))

      still : IsWaiting (s.pc i) → ⊥
      still x = rw w at x

      carried :
          (k : ℕ) {o : Owner} {r : ℕ} → inv.place k ≡ at o r → (pcs k ≡ s.pc k) × (place k ≡ at o r)
      carried k q = (unmoved inv i new still k q, ground (arith, inv.placed k))
