-- ===== src/OnceCell/Return.antt =====
-- Every call of `get_or_init` returns.
use valet_parking.Prelude.{ℕ, ◌≤◌, ◌≡◌, true, Option, none, some, refl, arith}
use valet_parking.Word.{Target}
use valet_parking.OnceCell.{complete}
use valet_parking.OnceCell.System.{System, Reach}
use valet_parking.OnceCell.Invariant.{Phase, fresh, owned, ready, State, At, Inv}
use valet_parking.OnceCell.Words.{running-pos}
use valet_parking.OnceCell.Kept.{Reach-Inv}
use valet_parking.OnceCell.Loop.{then-Run}
use valet_parking.OnceCell.Progress.{Finishes, asks, ready-Finishes}
use valet_parking.OnceCell.Liveness.{Run-Inv, Ends, writing-Ends, owner-Ends, fresh-Starts}

module _ {ℓ} {A : Type ℓ} (t : Target) (size : 1 ≤ t.usize_bytes) where
  module _ (i : ℕ) where
    -- The cell is ready once the atomic says so.
    filled-Finishes :
        (s : System A) (c : Option A) (p : Phase)
        → s.value ≡ c
        → State t p s.waiters.value s.waiters.marked c
        → At t c p i (s.pc i) (s.waiters.pc i)
        → s.waiters.value ≡ complete t
        → asks (s.pc i) ≡ true
        → Finishes t i s
    filled-Finishes s (some v) ready held (value, bare, _, _) at now asked =
        ready-Finishes t size i v s (s.pc i) ((value, bare), held) refl at asked
    filled-Finishes s none ready held (value, bare, empty, _) at now asked = absurd empty
    filled-Finishes s c fresh held (value, bare, _) at now asked =
        absurd (omega (arith, running-pos t size))
    filled-Finishes s c (owned j) held (value, _) at now asked =
        absurd (omega (arith, running-pos t size))

    ended-Finishes : {s : System A} (j : ℕ) → Inv t s → Ends t size i j s → Finishes t i s
    ended-Finishes j inv (u, run, now, asked) =
        let after = Run-Inv t size run inv in
        let (last, rest, v, out, held) =
          filled-Finishes u u.value after.phase refl after.state (after.threads i) now asked in
        (last, then-Run t run rest, v, out, held)

    phase-Finishes :
        {s : System A} (inv : Inv t s) (p : Phase)
        → inv.phase ≡ p
        → asks (s.pc i) ≡ true
        → Finishes t i s
    phase-Finishes {s} inv ready e asked =
        filled-Finishes s s.value ready refl (rw e at inv.state) (rw e at (inv.threads i))
          (rw e at inv.state).0 asked
    phase-Finishes {s} inv (owned j) e asked =
        ended-Finishes j inv
          (owner-Ends t size i j s (s.pc j) refl (inv.owner j e) (rw e at (inv.threads j)) asked)
    phase-Finishes {s} inv fresh e asked =
        let state = rw e at inv.state in
        let (u, run, v, begun) =
          fresh-Starts t size i s (s.pc i) (state.0, state.1) refl (rw e at (inv.threads i))
            asked in
        let after = Run-Inv t size run inv in
        let (here, _, _) = rw begun at (after.threads i) in
        let (last, rest, result, out, held) =
          ended-Finishes i after (writing-Ends t size i i u v begun here (rw begun refl)) in
        (last, then-Run t run rest, result, out, held)

  -- In every reachable state of a OnceCell over the contract of Waiters, a thread that is
  -- anywhere in get_or_init is led by the steps of the calls under way, without any new call, to
  -- a state in which it has returned the value that is in the cell.
  pub once_cell_returns : {s : System A} (i : ℕ) → Reach t s → asks (s.pc i) ≡ true → Finishes t i s
  once_cell_returns i r asked =
      let inv = Reach-Inv t size r in phase-Finishes i inv inv.phase refl asked
