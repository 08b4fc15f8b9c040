-- ===== src/PosixWaiters/Invariant.antt =====
-- What holds in every reachable state: the list and every Parker are where they can be on their own,
-- and each Parker goes with the place of its thread.
use valet_parking.Prelude.{ℕ, ◌≤◌, ◌≡◌, Bool, true, false, refl, arith, inl, sym, ◌∙◌, ap}
use valet_parking.Prelude.Family.{update, update_elim}
use valet_parking.Word.{Target}
use valet_parking.WaiterQueue.{Pc, waiting, reloading, walking, unparking, compare_and_wait, unpark}
use valet_parking.WaiterQueue.System as Queue
use valet_parking.WaiterQueue.System.{HasNode, IsNode}
use valet_parking.PosixParker.{is_outside}
use valet_parking.PosixParker.System as Parker
use valet_parking.PosixParker.System.{IsAddress}
use valet_parking.PosixParker.Steps.{Reach-Inv}
use valet_parking.PosixParker.Refinement.{unpark-mod}
use valet_parking.Contract.Agreement.{update_both}
use valet_parking.PosixWaiters.System.{
  System, parked_at, has_node, uses_parker, is_call, Step, listing, enters, parking, unparks,
  returns, Reach, start, later,
}
use valet_parking.PosixWaiters.Parking.{Step-Goes}
use valet_parking.PosixWaiters.Linked.{
  Linked, Goes-Linked, not_in_park, stays_out, walk-has_node, storing-Linked, comparing-has_node,
  comparing_makes,
}

abbrev pub Fits : Pc → Parker.System → Type 0
Fits pc p = Linked pc p.atomic p.parker

pub record Inv (t : Target) (debug : Bool) (s : System) : Type 0 where
  pub queue : Queue.Reach t s.queue
  pub parkers : (k : ℕ) → Parker.Reach t debug false (s.parker k)
  pub linked : (k : ℕ) → Fits (s.queue.pc k) (s.parker k)

module _ (t : Target) (size : 1 ≤ t.usize_bytes) (debug : Bool) where
  -- One thread moves to a place that fits its Parker.
  moved :
      (s : System) (i : ℕ) (pc : Pc)
      → ((k : ℕ) → Fits (s.queue.pc k) (s.parker k))
      → Fits pc (s.parker i)
      → (k : ℕ) → Fits (update s.queue.pc i pc k) (s.parker k)
  moved s i pc linked fits k =
      update_elim (λ x. Fits x (s.parker k)) s.queue.pc i pc k (λ same. rw (sym same) fits)
        (λ other. linked k)

  -- It had no node, and has none.
  moved_out :
      (s : System) (i : ℕ) (pc : Pc)
      → ((k : ℕ) → Fits (s.queue.pc k) (s.parker k))
      → has_node (s.queue.pc i) ≡ false
      → has_node pc ≡ false
      → (k : ℕ) → Fits (update s.queue.pc i pc k) (s.parker k)
  moved_out s i pc linked before after =
      moved s i pc linked
        (stays_out pc _ _ after (not_in_park (s.queue.pc i) _ _ before (linked i)))

  listing-Fits :
      (s : System) {q : Queue.System} (step : Queue.Step t s.queue q)
      → uses_parker t step ≡ false
      → ((k : ℕ) → Fits (s.queue.pc k) (s.parker k))
      → (k : ℕ) → Fits (q.pc k) (s.parker k)
  listing-Fits s (Queue.own (Queue.comparing i node made)) alone linked =
      moved_out s i _ linked (comparing-has_node t node s.queue.atomic (s.queue.pc i) alone) alone
  listing-Fits s (Queue.own (Queue.returns i w)) alone linked = cc
  listing-Fits s (Queue.own (Queue.storing i)) alone linked =
      moved s i _ linked (storing-Linked t s.queue.atomic (s.queue.pc i) _ _ (linked i))
  listing-Fits s (Queue.own (Queue.reads i k {p} {e} {n} w f positive)) alone linked =
      let before : has_node (s.queue.pc i) ≡ false = rw w refl in
      moved_out s i _ linked before (walk-has_node n (s.queue.pc i) before)
  listing-Fits s (Queue.own (Queue.ends i w)) alone linked =
      let before : has_node (s.queue.pc i) ≡ false = rw w refl in
      moved_out s i _ linked before (walk-has_node 0 (s.queue.pc i) before)
  listing-Fits s (Queue.own (Queue.unparks i k w f)) alone linked = cc
  listing-Fits s (Queue.call_wait i expected w) alone linked =
      moved_out s i _ linked (rw w refl) refl
  listing-Fits s (Queue.call_store i new w free) alone linked =
      moved_out s i _ linked (rw w refl) refl
  listing-Fits s (Queue.exchanges i new w old free) alone linked = linked
  listing-Fits s (Queue.faults i p used gone) alone linked = linked

  enters-Inv :
      {s : System} (i node addr : ℕ)
      → (fresh : IsNode t node × ((k : ℕ) → HasNode (s.queue.pc k) node → ⊥))
      → HasNode (compare_and_wait t node s.queue.atomic (s.queue.pc i)).pc node
      → IsAddress t addr
      → Inv t debug s
      → Inv t debug (record {
        queue = Queue.compares t s.queue i node;
        parker = update s.parker i (parked_at addr);
      })
  enters-Inv {s} i node addr fresh made ok inv =
      let (e, n, new, _) = comparing_makes t node s.queue.atomic (s.queue.pc i) made (fresh.1 i) in
      record {
        queue = Queue.later inv.queue (Queue.own (Queue.comparing i node (λ _. fresh)));
        parkers = λ k.
            update_elim (λ p. Parker.Reach t debug false p) s.parker i (parked_at addr) k
              (λ same.
                Parker.later (Parker.start addr ok) (Parker.call_park false addr refl ok (λ x. x)))
              (λ other. inv.parkers k);
        linked =
            update_both Fits s.queue.pc s.parker i _ (parked_at addr) inv.linked
              (rw new (refl, refl));
      }

  parking-Inv :
      {s : System} (k : ℕ) {p : Parker.System} (step : Parker.Step t debug (s.parker k) p)
      → is_call t debug step ≡ false
      → Inv t debug s
      → Inv t debug (record s { parker = update s.parker k p })
  parking-Inv {s} k {p} step inner inv =
      let goes = Step-Goes t size debug step inner (Reach-Inv t size debug (inv.parkers k)) in
      record {
        queue = inv.queue;
        parkers = λ j.
            update_elim (λ r. Parker.Reach t debug false r) s.parker k p j
              (λ same. Parker.later (inv.parkers k) step) (λ other. inv.parkers j);
        linked = λ j.
            update_elim (λ r. Fits (s.queue.pc j) r) s.parker k p j
              (λ same. rw same at (Goes-Linked (s.queue.pc k) _ _ _ _ goes (inv.linked k)))
              (λ other. inv.linked j);
      }

  unparks-Fits :
      (s : System) (i k : ℕ) {p e m n : ℕ} {unparked : Bool}
      → s.queue.pc i ≡ unparking p n
      → s.queue.pc k ≡ waiting e p m unparked
      → ((j : ℕ) → Fits (s.queue.pc j) (s.parker j))
      → (j : ℕ)
      → Fits
          (update (update s.queue.pc k (unpark (s.queue.pc k))) i (walking n) j)
          (update s.parker k (Parker.unparks_by t debug i (s.parker k)) j)
  unfolding unpark
  unparks-Fits s i k {p} {e} {m} {n} w f linked j =
      let called = Parker.unparks_by t debug i (s.parker k) in
      update_elim (λ x. Fits x (update s.parker k called j))
        (update s.queue.pc k (unpark (s.queue.pc k))) i (walking n) j
        (λ same.
          update_elim (λ r. is_outside r.parker ≡ true) s.parker k called j
            (λ clash. absurd (ground (arith, ap s.queue.pc (clash ∙ sym same))))
            (λ other. rw same at ((rw w at (linked i)))))
        (λ other.
          update_both Fits s.queue.pc s.parker k _ called linked
            (rw f (inl (unpark-mod t size debug (s.parker k).atomic))) j)

  -- Nothing but a call of `unpark` ends a wait in a node.
  pub returned_was_unparked :
      {s : System} (k : ℕ) {e p n : ℕ} (unparked : Bool)
      → Inv t debug s
      → s.queue.pc k ≡ waiting e p n unparked
      → is_outside (s.parker k).parker ≡ true
      → unparked ≡ true
  returned_was_unparked k true inv w out = refl
  returned_was_unparked k false inv w out = absurd (ground (arith, (rw w at (inv.linked k)).1))

  pub Step-Inv : {s u : System} → Step t debug s u → Inv t debug s → Inv t debug u
  Step-Inv {s} (listing step alone free) inv = record {
    queue = Queue.later inv.queue step;
    parkers = inv.parkers;
    linked = listing-Fits s step alone inv.linked;
  }
  Step-Inv (enters i node addr fresh made ok free) inv = enters-Inv i node addr fresh made ok inv
  Step-Inv (parking k step inner) inv = parking-Inv k step inner inv
  Step-Inv {s} (unparks i k w f free) inv = record {
    queue = Queue.later inv.queue (Queue.own (Queue.unparks i k w f));
    parkers = λ j.
        update_elim (λ r. Parker.Reach t debug false r) s.parker k _ j
          (λ same. Parker.later (inv.parkers k) (Parker.call_unpark i (free k)))
          (λ other. inv.parkers j);
    linked = unparks-Fits s i k w f inv.linked;
  }
  Step-Inv {s} (returns k {e} {p} {n} {unparked} w out) inv =
      let was : unparked ≡ true = returned_was_unparked k unparked inv w (rw out refl) in
      record {
        queue = Queue.later inv.queue (Queue.own (Queue.returns k (rw was at w)));
        parkers = inv.parkers;
        linked = moved s k (reloading e) inv.linked (rw out refl);
      }

  pub Reach-Fits : {s : System} → Reach t debug s → Inv t debug s
  Reach-Fits (start word addr free ok) = record {
    queue = Queue.start word free;
    parkers = λ k. Parker.start addr ok;
    linked = λ k. refl;
  }
  Reach-Fits (later r step) = Step-Inv step (Reach-Fits r)
