-- ===== src/OnceCell/Steps.antt =====
-- Every access of the atomic keeps the invariant, and so does every move of one thread.
use valet_parking.Prelude.{
  ℕ, ◌≤◌, ◌≡◌, Bool, true, false, Option, refl, arith, inl, inr, sym, Bool-cases,
}
use valet_parking.Prelude.Family.{update, update_elim}
use valet_parking.Word.{Target}
use valet_parking.Contract as Waiters
use valet_parking.Contract.{signal}
use valet_parking.Contract.Agreement.{Reads, update_both_at}
use valet_parking.OnceCell.{Pc, running, access}
use valet_parking.OnceCell.System.{System, accesses}
use valet_parking.OnceCell.Invariant.{Phase, fresh, owned, ready, IsSome, State, At, is_owner, Inv}
use valet_parking.OnceCell.Words.{Found, load_lem, fresh_lem}
use valet_parking.OnceCell.Accesses.{access-At, exchanging}
use valet_parking.OnceCell.Others.{later-At, access-is_owner}

module _ {ℓ} {A : Type ℓ} (t : Target) (size : 1 ≤ t.usize_bytes) where
  pub ready-filled :
      (p : Phase) (a : ℕ) (m : Bool) (c : Option A) → State t p a m c → p ≡ ready → IsSome c
  ready-filled fresh a m c state e = cc
  ready-filled (owned i) a m c state e = cc
  ready-filled ready a m c state e = state.2

  module _ {s : System A} (inv : Inv t s) where
    moved-owner :
        (i : ℕ) (pc : Pc A)
        → (inv.phase ≡ owned i → is_owner pc ≡ true)
        → (j : ℕ) → inv.phase ≡ owned j
        → is_owner (update s.pc i pc j) ≡ true
    moved-owner i pc mine j owns =
        update_elim (λ x. is_owner x ≡ true) s.pc i pc j (λ same. mine (rw same owns))
          (λ other. inv.owner j owns)

    -- A thread that is not the owner stays none.
    pub no_owner :
        (i : ℕ) {pc : Pc A}
        → s.pc i ≡ pc
        → is_owner pc ≡ false
        → (b : Bool) → inv.phase ≡ owned i
        → b ≡ true
    no_owner i w none_such b owns = absurd (ground (arith, inv.owner i owns))

    -- One thread moves, and the contract stays.
    pub moves-Inv :
        (i : ℕ) (pc : Pc A)
        → (inv.phase ≡ owned i → is_owner pc ≡ true)
        → At t s.value inv.phase i pc (s.waiters.pc i)
        → Inv t (record s { pc = update s.pc i pc })
    moves-Inv i pc mine at = record {
      phase = inv.phase;
      state = inv.state;
      owner = moved-owner i pc mine;
      threads = λ k.
          update_elim (λ x. At t s.value inv.phase k x (s.waiters.pc k)) s.pc i pc k
            (λ same. rw (sym same) at) (λ other. inv.threads k);
    }

    -- One thread moves with the contract.
    pub calls-Inv :
        (i : ℕ) (pc : Pc A) (q : Waiters.Pc)
        → (inv.phase ≡ owned i → is_owner pc ≡ true)
        → At t s.value inv.phase i pc q
        → Inv t (record s { waiters = Waiters.moves s.waiters i q; pc = update s.pc i pc })
    calls-Inv i pc q mine at = record {
      phase = inv.phase;
      state = inv.state;
      owner = moved-owner i pc mine;
      threads =
          update_both_at (At t s.value inv.phase) s.pc s.waiters.pc i pc q
            (λ k other. inv.threads k) at;
    }

    -- The exchange that begins the initialisation.
    begins-Inv :
        (i word : ℕ)
        → Found t inv.phase word
        → (access t word (s.pc i)).exchanges ≡ true
        → Inv t (record s {
          waiters = Waiters.exchanged s.waiters (running t);
          pc = update s.pc i (access t word (s.pc i)).pc;
        })
    begins-Inv i word found made =
        let (zero, e, v, now) =
          exchanging t size s.value inv.phase i word (s.waiters.pc i) (s.pc i) (inv.threads i)
            made in
        let is : inv.phase ≡ fresh = fresh_lem t size inv.phase word found zero in
        record {
          phase = owned i;
          state = (refl, _);
          owner = λ j owns.
              update_elim (λ x. is_owner x ≡ true) s.pc i (access t word (s.pc i)).pc j
                (λ same. rw now refl) (λ other. absurd (ground (arith, other, owns)));
          threads = λ k.
              update_elim (λ x. At t s.value (owned i) k x (signal (s.waiters.pc k))) s.pc i
                (access t word (s.pc i)).pc k
                (λ same. rw now (rw (sym same) (rw e (refl, refl, (rw is at inv.state).2))))
                (λ other.
                  later-At t size s.value inv.phase (owned i) k (s.pc k) (s.waiters.pc k)
                    (λ r. absurd (ground (arith, is, r))) (λ o. ground (arith, is, o))
                    (inv.threads k));
        }

    pub accesses-Inv : (i word : ℕ) → Reads t s.waiters word → Inv t (accesses t s i word)
    accesses-Inv i word reads =
        let found = load_lem t size s.waiters s.value inv.phase word inv.state reads in
        elim (Bool-cases (access t word (s.pc i)).exchanges) [
          | inl made ↦ rw made (begins-Inv i word found made)
          | inr none_made ↦ rw none_made (
              moves-Inv i _ (λ owns. access-is_owner t size word (s.pc i) (inv.owner i owns))
                (access-At t size s.value inv.phase i word (s.waiters.pc i) found (s.pc i)
                  (inv.threads i) none_made))
        ]
