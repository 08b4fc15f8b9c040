-- ===== src/FutexWaiters/Refinement.antt =====
-- The Waiters over a futex against the contract of `Waiters`.
use valet_parking.Prelude.{
  ℕ, ◌≡◌, false, ◌==◌, some, List, ◌∷◌, bit_and, inl, inr, refl, sym, arith, Bool-cases,
}
use valet_parking.Prelude.Family.{update}
use valet_parking.Word.{Target, IsTarget}
use valet_parking.FutexWaiters.{
  Pc, outside, marking, storing, waking, is_outside, has_waiters, pub_bits, store_and_wake, woken,
  ends_early,
}
use valet_parking.FutexWaiters.System.{
  System, stores, Step, call_wait, call_store, exchanges, comparing, early_end, swapping, waking_up,
}
use valet_parking.FutexWaiters.Words.{pub_bits-free}
use valet_parking.FutexWaiters.Invariant.{Inv}
use valet_parking.FutexWaiters.Steps.{Reach-Inv}
use valet_parking.FutexWaiters.Agreement.{
  seen, Runs, begin, go, Runs-Reach, Matches, Agrees, Allowed, AllowedFrom, signal-Matches,
  woken-Matches, ends_early-Matches,
}
use valet_parking.Contract
use valet_parking.Contract.{Event, follows, Traced, leaving, idle, signal}
use valet_parking.Contract.Agreement.{update_both, update_twice, update_there, step_out, returned}
use valet_parking.FutexWaiters.Comparing.{follows-Allowed, stands-Allowed, comparing-Allowed}

module _ (t : Target) (is : IsTarget t) where
  module _ {s : System} {o a : Contract.System} {trace : List Event} (inv : Inv t s)
      (agrees : Agrees t s a) (traced : Traced o a trace) where
    stored-Allowed :
        (events : List Event) (i : ℕ) {new : ℕ}
        → s.pc i ≡ storing new
        → (pc : Pc) (q : Contract.Pc) → Matches t new pc q
        → Traced o
            (record { value = new; marked = false; pc = update (λ k. signal (a.pc k)) i q })
            events
        → AllowedFrom t o (record { atomic = new; pc = update s.pc i pc }) events
    stored-Allowed events i {new} w pc q matches run = (
      _,
      run,
      record {
        reads = (pub_bits-free t is new (rw w at (inv.frees i)), λ _. refl);
        pcs =
            update_both (Matches t new) s.pc (λ k. signal (a.pc k)) i pc q
              (λ k. signal-Matches t s.atomic new (s.pc k) (a.pc k) (agrees.pcs k)) matches;
      },
    )

    swapping-Allowed :
        (i : ℕ) (pc : Pc)
        → s.pc i ≡ pc
        → AllowedFrom t o (stores t s i) (
            follows
              (returned i
                (is_outside (s.pc i))
                (is_outside (store_and_wake t s.atomic (s.pc i)).pc))
              trace)
    unfolding store_and_wake
    swapping-Allowed i (storing new) w =
        let a' : (store_and_wake t s.atomic (s.pc i)).atomic ≡ new = ground arith in
        let run : Traced o (Contract.stored a i new) trace =
          Contract.later traced (Contract.store i new (rw w at (agrees.pcs i))) in
        elim (Bool-cases (bit_and s.atomic (has_waiters t) == has_waiters t)) [
          | inl set ↦
              let p' : (store_and_wake t s.atomic (s.pc i)).pc ≡ waking = ground arith in
              rw a' (rw p' (rw w (stored-Allowed trace i w waking leaving refl run)))
          | inr clear ↦
              let p' : (store_and_wake t s.atomic (s.pc i)).pc ≡ outside = ground arith in
              rw a' (
                rw p' (
                  rw w (
                    stored-Allowed (Contract.returns i ∷ trace) i w outside idle refl (
                      rw (sym (update_twice (λ k. signal (a.pc k)) i leaving idle)) (
                        Contract.later run
                          (Contract.return i (update_there (λ k. signal (a.pc k)) i leaving)))))))
        ]
    swapping-Allowed i pc w =
        let a' : (store_and_wake t s.atomic (s.pc i)).atomic ≡ s.atomic = rw w (ground arith) in
        let p' : (store_and_wake t s.atomic (s.pc i)).pc ≡ pc = rw w (ground arith) in
        rw a' (rw p' (rw w (stands-Allowed t is inv agrees traced i pc (rw w at (agrees.pcs i)))))

    Step-Allowed :
        {u : System} (step : Step t s u) → AllowedFrom t o u (follows (seen t step) trace)
    Step-Allowed (call_wait i expected w fits) =
        follows-Allowed t is inv agrees traced i (some (Contract.waits i (pub_bits t expected)))
          (marking (pub_bits t expected))
          (
            Contract.waiting (pub_bits t expected) false,
            Contract.later traced
                (Contract.call_wait i (pub_bits t expected) (rw w at (agrees.pcs i))),
            refl,
          )
    Step-Allowed (call_store i new w free) =
        follows-Allowed t is inv agrees traced i (some (Contract.stores i new)) (storing new) (
          Contract.storing new,
          Contract.later traced (Contract.call_store i new (rw w at (agrees.pcs i))),
          refl,
        )
    Step-Allowed (exchanges i new w old free) = (
      Contract.exchanged a new,
      Contract.later traced (Contract.exchange i new (rw w at (agrees.pcs i))),
      record {
        reads = (pub_bits-free t is new free, λ _. refl);
        pcs = λ k. signal-Matches t s.atomic new (s.pc k) (a.pc k) (agrees.pcs k);
      },
    )
    Step-Allowed (comparing i) = comparing-Allowed t is inv agrees traced i (s.pc i) refl
    Step-Allowed (early_end i) =
        stands-Allowed t is inv agrees traced i (ends_early (s.pc i))
          (ends_early-Matches t s.atomic (s.pc i) (a.pc i) (agrees.pcs i))
    Step-Allowed (swapping i) = swapping-Allowed i (s.pc i) refl
    Step-Allowed (waking_up i w) = (
      Contract.moves a i idle,
      step_out i traced (rw w at (agrees.pcs i)),
      record {
        reads = agrees.reads;
        pcs =
            update_both (Matches t s.atomic) (λ k. woken (s.pc k)) a.pc i outside idle
              (λ k. woken-Matches t s.atomic (s.pc k) (a.pc k) (agrees.pcs k)) refl;
      },
    )

  -- On every 32-bit and 64-bit target, every trace of the Waiters over a futex is the trace of a
  -- run of the contract of Waiters, whatever spurious wakeups there were; and the end of that run
  -- agrees with the place of every thread and with the atomic: with its public bits, and with its
  -- reserved bits, which are set only if a thread has waited for the value since it was last
  -- written.
  pub futex_refines_contract :
      {s : System} {trace : List Event} → Runs t s trace → Allowed t s trace
  futex_refines_contract (begin a free) = (
    a,
    (
      Contract.init a,
      Contract.start,
      record { reads = (pub_bits-free t is a free, λ _. refl); pcs = λ i. refl },
    ),
  )
  futex_refines_contract (go runs step) =
      let (v, (a, traced, agrees)) = futex_refines_contract runs in
      (v, Step-Allowed (Reach-Inv t is (Runs-Reach t runs)) agrees traced step)
