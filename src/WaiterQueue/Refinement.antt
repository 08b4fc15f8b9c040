-- ===== src/WaiterQueue/Refinement.antt =====
-- The list of waiters against the contract of `Waiters`.
use valet_parking.Prelude.{
  ℕ, ◌≤◌, ◌<◌, ◌≡◌, false, ◌==◌, none, some, List, inl, inr, refl, arith, ap, ◌∙◌, Bool-cases,
  ℕ_discrete,
}
use valet_parking.Prelude.Family.{update, update_elim, update_same}
use valet_parking.Word.{Target, usize_mod}
use valet_parking.Reserved.{IsFree}
use valet_parking.Reserved.Fields.{pub_bits_lem, word_split, reserved_lem}
use valet_parking.WaiterQueue.{
  Pc, outside, loading, trying, waiting, reloading, swapping, walking, unparking, is_outside,
  pub_bits, first, compare_and_wait, store_and_wake, walk, unpark,
}
use valet_parking.WaiterQueue.System.{
  System, IsNode, HasNode, moves, swaps, compares, Own, comparing, returns, storing, reads, ends,
  unparks, Step, own, call_wait, call_store, exchanges, faults,
}
use valet_parking.WaiterQueue.Invariant.{Inv}
use valet_parking.WaiterQueue.Words.{linked, pub_bits-linked}
use valet_parking.WaiterQueue.Steps.{Reach-Inv}
use valet_parking.Contract
use valet_parking.Contract.{Event, follows, Traced, leaving, idle, signal}
use valet_parking.Contract.Agreement.{update_both, step_out, marks, marked, returned}
use valet_parking.WaiterQueue.Agreement.{
  seen_own, seen, Runs, begin, go, Runs-Reach, Matches, Agrees, Allowed, AllowedFrom,
  follows-Allowed, comparing-Follows, comparing_links, stands-Follows, signal-Matches,
  unpark-Matches,
}

module _ (t : Target) (size : 1 ≤ t.usize_bytes) where
  pub_bits-free : (a : ℕ) → IsFree t a → pub_bits t a ≡ a
  pub_bits-free a free =
      pub_bits_lem t size a free.word
      ∙ omega (arith, word_split t size a, free.no_reserved, reserved_lem t size a)

  comparing-pub_bits :
      (word node : ℕ) (pc : Pc)
      → word < usize_mod t
      → (HasNode (compare_and_wait t node word pc).pc node → IsNode t node)
      → pub_bits t (compare_and_wait t node word pc).atomic ≡ pub_bits t word
  unfolding compare_and_wait
  comparing-pub_bits word node (trying e c) fits made = elim (Bool-cases (pub_bits t c == e)) [
    | inl same_bits ↦ elim (Bool-cases (word == c)) [
      | inl same ↦
          let same_word : c ≡ word = ground arith in
          let a' : (compare_and_wait t node word (trying e c)).atomic ≡ linked t word node =
            rw same_word (ground arith) in
          let p' : (compare_and_wait t node word (trying e c)).pc
              ≡ waiting e node (first t word) false =
            rw same_word (ground arith) in
          rw a' (pub_bits-linked t size word node fits (made (rw p' refl)))
      | inr other ↦ ap (pub_bits t) (ground arith)
    ]
    | inr other ↦ ap (pub_bits t) (ground arith)
  ]
  comparing-pub_bits word node pc fits made = refl

  module _ {s : System} {o a : Contract.System} {trace : List Event} (inv : Inv t s)
      (agrees : Agrees t s a) (traced : Traced o a trace) where
    storing-Allowed : (i : ℕ) (pc : Pc) → s.pc i ≡ pc → AllowedFrom t o (swaps t s i) trace
    unfolding store_and_wake
    storing-Allowed i (swapping new) w = rw w (
      Contract.stored a i new,
      Contract.later traced (Contract.store i new (rw w at (agrees.pcs i))),
      record {
        reads = (pub_bits-free new (rw w at (inv.stores i)), λ _. refl);
        pcs =
            update_both (Matches t) s.pc (λ k. signal (a.pc k)) i (walking (first t s.atomic))
              leaving (λ k. signal-Matches t (s.pc k) (a.pc k) (agrees.pcs k)) refl;
      },
    )
    storing-Allowed i pc w =
        let a' : (store_and_wake t s.atomic (s.pc i)).atomic ≡ s.atomic = rw w (ground arith) in
        let p' : (store_and_wake t s.atomic (s.pc i)).pc ≡ s.pc i = rw w (ground arith) in
        rw a' (rw p' (rw (update_same s.pc i) (a, traced, agrees)))

    goes : (i : ℕ) (new : Pc) → Matches t new (a.pc i) → AllowedFrom t o (moves s i new) trace
    goes i new m =
        follows-Allowed t agrees traced i none s.atomic new s.faulted agrees.reads
          (stands-Follows t agrees traced i new m)

    -- An access that changes the word marks it.
    comparing-Allowed :
        (i node : ℕ)
        → (HasNode (compare_and_wait t node s.atomic (s.pc i)).pc node → IsNode t node)
        → AllowedFrom t o (compares t s i node) (
            follows
              (returned i
                (is_outside (s.pc i))
                (is_outside (compare_and_wait t node s.atomic (s.pc i)).pc))
              trace)
    comparing-Allowed i node made =
        let bits = comparing-pub_bits s.atomic node (s.pc i) inv.word made ∙ agrees.reads.0 in
        let word = (compare_and_wait t node s.atomic (s.pc i)).atomic in
        elim (ℕ_discrete word s.atomic) [
          | yes same ↦
              follows-Allowed t agrees traced i _ word _ s.faulted
                (bits, λ bare. same ∙ agrees.reads.1 bare)
                (comparing-Follows t agrees traced i node (s.pc i) (a.pc i) refl (agrees.pcs i))
          | no changed ↦
              let (e, w, value) =
                comparing_links t agrees traced i node (s.pc i) (a.pc i) (agrees.pcs i) changed in
              let now = marks i traced (a.pc i) refl w value in
              let still : Agrees t s (marked a) = record {
                reads = (agrees.reads.0, λ bare. cc);
                pcs = agrees.pcs;
              } in
              follows-Allowed t still now i _ word _ s.faulted (bits, λ bare. cc)
                (comparing-Follows t still now i node (s.pc i) (a.pc i) refl (agrees.pcs i))
        ]

    Own-Allowed :
        {u : System} (step : Own t s u) → AllowedFrom t o u (follows (seen_own t step) trace)
    unfolding walk
    Own-Allowed (comparing i node made) = comparing-Allowed i node (λ h. (made h).0)
    Own-Allowed (returns i {e} w) = goes i (reloading e) (rw w at (agrees.pcs i))
    Own-Allowed (storing i) = storing-Allowed i (s.pc i) refl
    Own-Allowed (reads i k {p} {e} {n} w f positive) =
        let next : walk n (s.pc i) ≡ unparking p n = rw w (ground arith) in
        rw next (goes i (unparking p n) (rw w at (agrees.pcs i)))
    Own-Allowed (ends i w) = rw w (
        follows-Allowed t agrees traced i (some (Contract.returns i)) s.atomic outside s.faulted
          agrees.reads (idle, step_out i traced (rw w at (agrees.pcs i)), refl))
    Own-Allowed (unparks i k {p} {e} {m} {n} w f) = (
      a,
      traced,
      record {
        reads = agrees.reads;
        pcs = λ j.
            update_elim (λ x. Matches t x (a.pc j)) (update s.pc k (unpark (s.pc k))) i (walking n)
              j (λ same. rw same at ((rw w at (agrees.pcs i))))
              (λ other.
                update_elim (λ x. Matches t x (a.pc j)) s.pc k (unpark (s.pc k)) j
                  (λ same. rw same (unpark-Matches t (s.pc j) (a.pc j) (agrees.pcs j)))
                  (λ other. agrees.pcs j));
      },
    )

    pub Step-Allowed :
        {u : System} (step : Step t s u) → AllowedFrom t o u (follows (seen t step) trace)
    Step-Allowed (own o) = Own-Allowed o
    Step-Allowed (call_wait i expected w) =
        follows-Allowed t agrees traced i (some (Contract.waits i (pub_bits t expected))) s.atomic
          (loading (pub_bits t expected)) s.faulted agrees.reads
          (
            Contract.waiting (pub_bits t expected) false,
            Contract.later traced
                (Contract.call_wait i (pub_bits t expected) (rw w at (agrees.pcs i))),
            refl,
          )
    Step-Allowed (call_store i new w free) =
        follows-Allowed t agrees traced i (some (Contract.stores i new)) s.atomic (swapping new)
          s.faulted agrees.reads
          (
            Contract.storing new,
            Contract.later traced (Contract.call_store i new (rw w at (agrees.pcs i))),
            refl,
          )
    Step-Allowed (exchanges i new w old free) = (
      Contract.exchanged a new,
      Contract.later traced (Contract.exchange i new (rw w at (agrees.pcs i))),
      record {
        reads = (pub_bits-free new free, λ _. refl);
        pcs = λ k. signal-Matches t (s.pc k) (a.pc k) (agrees.pcs k);
      },
    )
    Step-Allowed (faults i p used gone) =
        (a, traced, record { reads = agrees.reads; pcs = agrees.pcs })

  -- Every trace of the list of waiters, which is the calls with their arguments, the returns, and
  -- the writes that callers make themselves, in their order, is the trace of a run of the
  -- contract of Waiters, in which a wait ends only if the value was another one, or the atomic
  -- was written, during the call; and the end of that run agrees with the place of every thread
  -- and with the atomic: with its public bits, and with its reserved bits, which are set only if
  -- a thread has waited for the value since it was last written.
  pub queue_refines_contract :
      {s : System} {trace : List Event} → Runs t s trace → Allowed t s trace
  queue_refines_contract (begin a free) = (
    a,
    (
      Contract.init a,
      Contract.start,
      record { reads = (pub_bits-free a free, λ _. refl); pcs = λ i. refl },
    ),
  )
  queue_refines_contract (go runs step) =
      let (v, (a, traced, agrees)) = queue_refines_contract runs in
      (v, Step-Allowed (Reach-Inv t size (Runs-Reach t runs)) agrees traced step)
