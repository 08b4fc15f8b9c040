-- ===== src/OnceCell/Kept.antt =====
-- Every step keeps the invariant: the steps of the contract, and all of them.
use valet_parking.Prelude.{
  ℕ, ◌≤◌, ◌≡◌, Bool, true, false, Option, none, some, refl, arith, inl, inr, sym, ◌∙◌,
}
use valet_parking.Prelude.Family.{update, update_elim}
use valet_parking.Word.{Target}
use valet_parking.Contract as Waiters
use valet_parking.Contract.{signal}
use valet_parking.Contract.Calls.{stores_lem, waits_lem, returns_lem}
use valet_parking.OnceCell.{
  Pc, outside, getting, writing, waking, storing, asserting, waiting, reloading, returned, running,
  complete,
}
use valet_parking.OnceCell.System.{
  System, IsAtRest, Step, call, accessing, reading_cell, writing_cell, storing_calls, waiting_calls,
  inside, storing_returns, waiting_returns, Reach, start, later,
}
use valet_parking.OnceCell.Invariant.{Phase, fresh, owned, ready, State, At, is_owner, Inv}
use valet_parking.OnceCell.Words.{running-pos}
use valet_parking.OnceCell.Accesses.{read-At}
use valet_parking.OnceCell.Others.{later-At, fills-At, waits_here, stores_here, read-is_owner}
use valet_parking.OnceCell.Steps.{ready-filled, moves-Inv, calls-Inv, accesses-Inv, no_owner}

module _ {ℓ} {A : Type ℓ} (t : Target) (size : 1 ≤ t.usize_bytes) where
  module _ {s : System A} (inv : Inv t s) where
    -- The write of `COMPLETE` in `store_and_wake`.
    completes-Inv :
        (i : ℕ) {new : ℕ}
        → s.waiters.pc i ≡ Waiters.storing new
        → Inv t (record s { waiters = Waiters.stored s.waiters i new })
    completes-Inv i {new} here =
        let (w, value, mine, filled) =
          stores_here t size s.value inv.phase i (s.pc i) (s.waiters.pc i) here (inv.threads i) in
        record {
          phase = ready;
          state = (value, refl, filled, _);
          owner = λ j owns. cc;
          threads = λ k.
              update_elim (At t s.value ready k (s.pc k)) (λ j. signal (s.waiters.pc j)) i
                Waiters.leaving k (λ same. rw (sym same) (rw w (inr (refl, refl), _)))
                (λ other.
                  later-At t size s.value inv.phase ready k (s.pc k) (s.waiters.pc k) (λ r. refl)
                    (λ o. ground (arith, mine, o)) (inv.threads k));
        }

    leaves-Inv :
        (i : ℕ) {e : ℕ} {signalled : Bool}
        → s.waiters.pc i ≡ Waiters.waiting e signalled
        → Inv t (record s { waiters = Waiters.moves s.waiters i Waiters.leaving })
    leaves-Inv i here =
        let (v, w, _) =
          waits_here t size s.value inv.phase i (s.pc i) (s.waiters.pc i) here (inv.threads i) in
        record {
          phase = inv.phase;
          state = inv.state;
          owner = inv.owner;
          threads = λ k.
              update_elim (At t s.value inv.phase k (s.pc k)) s.waiters.pc i Waiters.leaving k
                (λ same. rw (sym same) (rw w (inr refl, _))) (λ other. inv.threads k);
        }

    -- Reserved bits are set only while the cell is being initialised.
    marked-State :
        (p : Phase)
        → State t p s.waiters.value s.waiters.marked s.value
        → s.waiters.value ≡ running t
        → State t p s.waiters.value true s.value
    marked-State fresh (value, _, _) now = absurd (omega (arith, running-pos t size))
    marked-State (owned i) state now = state
    marked-State ready (value, _, _, _) now = absurd (omega (arith, running-pos t size))

    inside-Inv :
        {w : Waiters.System} → Waiters.Step s.waiters none w → Inv t (record s { waiters = w })
    inside-Inv (Waiters.store i last here) = completes-Inv i here
    inside-Inv (Waiters.leave i here why) = leaves-Inv i here
    inside-Inv (Waiters.mark i here value) =
        let (v, w, now) =
          waits_here t size s.value inv.phase i (s.pc i) (s.waiters.pc i) here (inv.threads i) in
        record {
          phase = inv.phase;
          state = marked-State inv.phase inv.state (value ∙ now);
          owner = inv.owner;
          threads = inv.threads;
        }

    writes-Inv :
        (i : ℕ) {v : A}
        → s.pc i ≡ writing v
        → Inv t (record s { value = some v; pc = update s.pc i waking })
    writes-Inv i {v} w =
        let (e, mine, _) = rw w at (inv.threads i) in
        record {
          phase = owned i;
          state = ((rw mine at inv.state).0, _);
          owner = λ j owns.
              update_elim (λ x. is_owner x ≡ true) s.pc i waking j (λ same. refl)
                (λ other. absurd (ground (arith, other, owns)));
          threads = λ k.
              update_elim (λ x. At t (some v) (owned i) k x (s.waiters.pc k)) s.pc i waking k
                (λ same. rw (sym same) (e, refl, _, _))
                (λ other.
                  fills-At t size s.value v i k (s.pc k) (s.waiters.pc k) other
                    (rw mine at (inv.threads k)));
        }

  idle-IsAtRest :
      (c : Option A) (p : Phase) (k : ℕ) (pc : Pc A) (q : Waiters.Pc)
      → IsAtRest t pc
      → At t c p k pc q
      → q ≡ Waiters.idle
  idle-IsAtRest c p k outside q rest at = at.0
  idle-IsAtRest c p k (returned none) q rest at = at.0
  idle-IsAtRest c p k (returned (some v)) q rest at = at.0
  idle-IsAtRest c p k pc q rest at = absurd rest

  owner-IsAtRest : (pc : Pc A) → IsAtRest t pc → is_owner pc ≡ true → ⊥
  owner-IsAtRest outside rest mine = cc
  owner-IsAtRest (returned result) rest mine = cc
  owner-IsAtRest pc rest mine = rest

  pub Step-Inv : {s u : System A} → Step t s u → Inv t s → Inv t u
  Step-Inv {s} (call i init rest) inv =
      moves-Inv t size inv i (getting init)
        (λ owns. absurd (owner-IsAtRest (s.pc i) rest (inv.owner i owns)))
        (idle-IsAtRest s.value inv.phase i (s.pc i) _ rest (inv.threads i), _)
  Step-Inv (accessing i word reads) inv = accesses-Inv t size inv i word reads
  Step-Inv {s} (reading_cell i) inv =
      moves-Inv t size inv i _ (λ owns. read-is_owner t size s.value (s.pc i) (inv.owner i owns))
        (read-At t size s.value inv.phase i (s.pc i) _
          (ready-filled t size inv.phase _ _ s.value inv.state) (inv.threads i))
  Step-Inv (writing_cell i w) inv = writes-Inv inv i w
  Step-Inv {s} (storing_calls i w step) inv =
      let (e, mine, filled, _) = rw w at (inv.threads i) in
      rw (stores_lem step).1 (
        calls-Inv t size inv i storing (Waiters.storing (complete t)) (λ owns. refl)
          (inl (refl, mine, filled), _))
  Step-Inv {s} (waiting_calls i {value} w step) inv = rw (waits_lem step).1 (
      calls-Inv t size inv i (waiting value) (Waiters.waiting (running t) false)
        (no_owner t size inv i w refl _) (inl refl, _))
  Step-Inv (inside step) inv = inside-Inv inv step
  Step-Inv {s} (storing_returns i w step) inv =
      let (e, now) = returns_lem step in
      let is : inv.phase ≡ ready = elim (rw w at (inv.threads i)).0 [
        | inl (before, _, _) ↦ absurd (ground arith)
        | inr (_, is) ↦ is
      ] in
      rw now (
        calls-Inv t size inv i asserting Waiters.idle (λ owns. absurd (ground (arith, is)))
          (refl, is, _))
  Step-Inv {s} (waiting_returns i {value} w step) inv = rw (returns_lem step).1 (
      calls-Inv t size inv i (reloading value) Waiters.idle (no_owner t size inv i w refl _)
        (refl, _))

  pub Reach-Inv : {s : System A} → Reach t s → Inv t s
  Reach-Inv start = record {
    phase = fresh;
    state = (refl, refl, refl);
    owner = λ j owns. cc;
    threads = λ k. (refl, _);
  }
  Reach-Inv (later r step) = Step-Inv step (Reach-Inv r)
