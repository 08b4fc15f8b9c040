-- ===== src/Keyed/Waiters/Refinement.antt =====
-- The Waiters over keyed events against the contract of `Waiters`.
use valet_parking.Prelude.{
  ℕ, ◌+◌, ◌%◌, ◌≤◌, ◌<◌, ◌≡◌, false, ◌==◌, none, some, List, inl, inr, refl, arith, ap, ◌∙◌,
  Bool-cases, ℕ_discrete,
}
use valet_parking.Prelude.Family.{update, update_elim}
use native.Mathlib.Nat.{mod-eq_of_lt}
use valet_parking.Word.{Target, usize_mod}
use valet_parking.Reserved.{IsFree}
use valet_parking.Reserved.Fields.{field, pub_bits_lem, word_split, reserved_lem}
use valet_parking.Keyed.Waiters.{
  Pc, outside, loading, trying, swapping, releasing, is_outside, pub_bits, compare_and_wait,
  store_and_wake, release_keyed_events, wait_ends,
}
use valet_parking.Keyed.Waiters.System.{
  System, moves, compares, Own, comparing, storing, meeting, ends, Step, own, call_wait, call_store,
  wait_ending, exchanges, gives_up,
}
use valet_parking.Keyed.Waiters.Invariant.{Inv, Reach-Inv, word_next, registers-room}
use valet_parking.Contract
use valet_parking.Contract.{Event, follows, Traced, leaving, idle, signal}
use valet_parking.Contract.Agreement.{update_both, step_out, marks, marked, returned}
use valet_parking.Keyed.Waiters.Agreement.{
  seen_own, seen, Runs, begin, go, Runs-Reach, Matches, Agrees, Allowed, AllowedFrom,
  follows-Allowed, comparing-Follows, comparing_counts, stands-Follows, signal-Matches,
  wait_ends-Matches,
}

module _ (t : Target) (size : 1 ≤ t.usize_bytes) (threads : ℕ) (few : threads < field t) where
  pub_bits-free : (a : ℕ) → IsFree t a → pub_bits t a ≡ a
  pub_bits-free a free =
      pub_bits_lem t size a free.word
      ∙ omega (arith, word_split t size a, free.no_reserved, reserved_lem t size a)

  comparing-pub_bits :
      {s : System} (i : ℕ) (pc : Pc)
      → s.pc i ≡ pc
      → Inv t threads s
      → pub_bits t (compare_and_wait t s.atomic (s.pc i)).atomic ≡ pub_bits t s.atomic
  unfolding compare_and_wait
  comparing-pub_bits {s} i (trying e c) w inv = elim (Bool-cases (pub_bits t c == e)) [
    | inl same_bits ↦ elim (Bool-cases (s.atomic == c)) [
      | inl same ↦
          let same_word : c ≡ s.atomic = ground arith in
          let a' : (compare_and_wait t s.atomic (s.pc i)).atomic ≡ (s.atomic + 1) % usize_mod t =
            rw (w, same_word) (ground arith) in
          let (top, rest, bits) =
            word_next t size threads few s.atomic inv.word
              (registers-room t size threads few i w inv) in
          rw a' (rw (mod-eq_of_lt {n = s.atomic + 1} {m = usize_mod t} top) bits)
      | inr other ↦ ap (pub_bits t) (ground arith)
    ]
    | inr other ↦ ap (pub_bits t) (ground arith)
  ]
  comparing-pub_bits {s} i pc w inv = ap (pub_bits t) (rw w (ground arith))

  module _ {s : System} {o a : Contract.System} {trace : List Event} (inv : Inv t threads s)
      (agrees : Agrees t s a) (traced : Traced o a trace) where
    goes : (i : ℕ) (new : Pc) → Matches t new (a.pc i) → AllowedFrom t o (moves s i new) trace
    goes i new m =
        follows-Allowed t agrees traced i none s.atomic new s.registered agrees.reads
          (stands-Follows t agrees traced i new m)

    -- An access that changes the word marks it.
    comparing-Allowed :
        (i : ℕ)
        → AllowedFrom t o (compares t threads s i) (
            follows
              (returned i
                (is_outside (s.pc i))
                (is_outside (compare_and_wait t s.atomic (s.pc i)).pc))
              trace)
    comparing-Allowed i =
        let bits = comparing-pub_bits i (s.pc i) refl inv ∙ agrees.reads.0 in
        let word = (compare_and_wait t s.atomic (s.pc i)).atomic in
        elim (ℕ_discrete word s.atomic) [
          | yes same ↦
              follows-Allowed t agrees traced i _ word _ _
                (bits, λ bare. same ∙ agrees.reads.1 bare)
                (comparing-Follows t agrees traced i (s.pc i) (a.pc i) refl (agrees.pcs i))
          | no changed ↦
              let (e, w, value) =
                comparing_counts t agrees traced i (s.pc i) (a.pc i) (agrees.pcs i) changed in
              let now = marks i traced (a.pc i) refl w value in
              let still : Agrees t s (marked a) = record {
                reads = (agrees.reads.0, λ bare. cc);
                pcs = agrees.pcs;
              } in
              follows-Allowed t still now i _ word _ _ (bits, λ bare. cc)
                (comparing-Follows t still now i (s.pc i) (a.pc i) refl (agrees.pcs i))
        ]

    Own-Allowed :
        {u : System} (step : Own t threads s u)
        → AllowedFrom t o u (follows (seen_own t threads step) trace)
    unfolding store_and_wake release_keyed_events
    Own-Allowed (comparing i) = comparing-Allowed i
    Own-Allowed (storing i {new} w) = rw w (
      Contract.stored a i new,
      Contract.later traced (Contract.store i new (rw w at (agrees.pcs i))),
      record {
        reads = (pub_bits-free new (rw w at (inv.agrees i)), λ _. refl);
        pcs =
            update_both (Matches t) s.pc (λ k. signal (a.pc k)) i _ leaving
              (λ k. signal-Matches t (s.pc k) (a.pc k) (agrees.pcs k)) refl;
      },
    )
    Own-Allowed (meeting i k {left} {e} w f) = (
      a,
      traced,
      record {
        reads = agrees.reads;
        pcs = λ j.
            update_elim (λ x. Matches t x (a.pc j)) (update s.pc k (wait_ends (s.pc k))) i
              (release_keyed_events (s.pc i)) j (λ same. rw w (rw same at (rw w at (agrees.pcs i))))
              (λ other.
                update_elim (λ x. Matches t x (a.pc j)) s.pc k (wait_ends (s.pc k)) j
                  (λ same. rw same (wait_ends-Matches t (s.pc j) (a.pc j) (agrees.pcs j)))
                  (λ other. agrees.pcs j));
      },
    )
    Own-Allowed (ends i w) = rw w (
        follows-Allowed t agrees traced i (some (Contract.returns i)) s.atomic outside s.registered
          agrees.reads (idle, step_out i traced (rw w at (agrees.pcs i)), refl))

    Step-Allowed :
        {u : System} (step : Step t threads s u)
        → AllowedFrom t o u (follows (seen t threads step) trace)
    unfolding release_keyed_events
    Step-Allowed (own o) = Own-Allowed o
    Step-Allowed (call_wait i expected w known) =
        follows-Allowed t agrees traced i (some (Contract.waits i (pub_bits t expected))) s.atomic
          (loading (pub_bits t expected)) s.registered agrees.reads
          (
            Contract.waiting (pub_bits t expected) false,
            Contract.later traced
                (Contract.call_wait i (pub_bits t expected) (rw w at (agrees.pcs i))),
            refl,
          )
    Step-Allowed (call_store i new w free) =
        follows-Allowed t agrees traced i (some (Contract.stores i new)) s.atomic (swapping new)
          s.registered agrees.reads
          (
            Contract.storing new,
            Contract.later traced (Contract.call_store i new (rw w at (agrees.pcs i))),
            refl,
          )
    Step-Allowed (exchanges i new w old free) = (
      Contract.exchanged a new,
      Contract.later traced (Contract.exchange i new (rw w at (agrees.pcs i))),
      record {
        reads = (pub_bits-free new free, λ _. refl);
        pcs = λ k. signal-Matches t (s.pc k) (a.pc k) (agrees.pcs k);
      },
    )
    Step-Allowed (wait_ending i) =
        goes i (wait_ends (s.pc i)) (wait_ends-Matches t (s.pc i) (a.pc i) (agrees.pcs i))
    Step-Allowed (gives_up i {left} w) = rw w (goes i (releasing left) (rw w at (agrees.pcs i)))

  -- With fewer threads than the reserved bits can count, every trace of the Waiters over keyed
  -- events, releases that time out and waits that end on their own included, is the trace of a
  -- run of the contract of Waiters; and the end of that run agrees with the place of every thread
  -- and with the atomic: with its public bits, and with its reserved bits, which are set only if
  -- a thread has waited for the value since it was last written.
  pub keyed_refines_contract :
      {s : System} {trace : List Event} → Runs t threads s trace → Allowed t s trace
  keyed_refines_contract (begin a free) = (
    a,
    (
      Contract.init a,
      Contract.start,
      record { reads = (pub_bits-free a free, λ _. refl); pcs = λ i. refl },
    ),
  )
  keyed_refines_contract (go runs step) =
      let (v, (a, traced, agrees)) = keyed_refines_contract runs in
      (
        v,
        Step-Allowed (Reach-Inv t size threads few (Runs-Reach t threads runs)) agrees traced step,
      )
