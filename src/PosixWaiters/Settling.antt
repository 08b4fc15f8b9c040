-- ===== src/PosixWaiters/Settling.antt =====
-- Only finitely many Parkers are in use, and the calls of `unpark` on them all end.
use valet_parking.Prelude.{ℕ, zero, suc, ◌+◌, ◌≤◌, Bool, refl, arith}
use valet_parking.Prelude.Family.{update, update_elim}
use valet_parking.Word.{Target}
use valet_parking.PosixParker.System as Parker
use valet_parking.PosixWaiters.System.{
  System, parked_at, Step, listing, enters, parking, unparks, returns, Reach, start, later,
}
use valet_parking.PosixWaiters.Invariant.{Inv}
use valet_parking.PosixWaiters.Running.{
  IsQuiet, replaced, Run, done, then-Run, Run-Inv, unpark_ends,
}

abbrev pub IsQuietFrom : ℕ → (ℕ → Parker.System) → Type 0
IsQuietFrom n parker = (k : ℕ) → n ≤ k → IsQuiet (parker k)

update-IsQuietFrom :
    (n : ℕ) (parker : ℕ → Parker.System) (i : ℕ) (p : Parker.System)
    → IsQuietFrom n parker
    → IsQuietFrom (n + suc i) (update parker i p)
update-IsQuietFrom n parker i p quiet k above =
    update_elim IsQuiet parker i p k (λ same. absurd (omega (arith, same)))
      (λ other. quiet k (omega arith))

module _ (t : Target) (debug : Bool) where
  Step-IsQuietFrom :
      {s u : System} (n : ℕ)
      → Step t debug s u
      → IsQuietFrom n s.parker
      → (m : ℕ) × IsQuietFrom m u.parker
  Step-IsQuietFrom n (listing step alone free) quiet = (n, quiet)
  Step-IsQuietFrom {s} n (enters i node addr fresh made ok free) quiet =
      (n + suc i, update-IsQuietFrom n s.parker i (parked_at addr) quiet)
  Step-IsQuietFrom {s} n (parking k {p} step inner) quiet =
      (n + suc k, update-IsQuietFrom n s.parker k p quiet)
  Step-IsQuietFrom {s} n (unparks i k w f free) quiet =
      (n + suc k, update-IsQuietFrom n s.parker k _ quiet)
  Step-IsQuietFrom n (returns k w out) quiet = (n, quiet)

  pub Reach-IsQuietFrom : {s : System} → Reach t debug s → (n : ℕ) × IsQuietFrom n s.parker
  Reach-IsQuietFrom (start word addr free ok) = (0, λ k above i. refl)
  Reach-IsQuietFrom (later r step) =
      let (n, quiet) = Reach-IsQuietFrom r in Step-IsQuietFrom n step quiet

-- A run to a state in which no thread is in `unpark`, with the list as it was.
abbrev pub Settles : Target → Bool → System → Type 0
Settles t debug s =
    (parker : ℕ → Parker.System) × Run t debug s (record s { parker = parker })
    × ((k : ℕ) → IsQuiet (parker k))

module _ (t : Target) (size : 1 ≤ t.usize_bytes) (debug : Bool) where
  update-IsQuietBelow :
      (n : ℕ) (parker : ℕ → Parker.System) (p : Parker.System)
      → IsQuiet p
      → IsQuietFrom (suc n) parker
      → IsQuietFrom n (update parker n p)
  update-IsQuietBelow n parker p here quiet k above =
      update_elim IsQuiet parker n p k (λ same. here) (λ other. quiet k (omega (arith, other)))

  Settles-below : (n : ℕ) {s : System} → Inv t debug s → IsQuietFrom n s.parker → Settles t debug s
  Settles-below zero {s} inv quiet = (s.parker, done s, λ k. quiet k (omega arith))
  Settles-below (suc n) {s} inv quiet =
      let (p, run, here) = unpark_ends t size debug n inv in
      let (parker, rest, all) =
        Settles-below n {s = replaced s n p} (Run-Inv t debug size run inv)
          (update-IsQuietBelow n s.parker p here quiet) in
      (parker, then-Run t debug run rest, all)

  pub settles_lem : {s : System} → Reach t debug s → Inv t debug s → Settles t debug s
  settles_lem r inv = let (n, quiet) = Reach-IsQuietFrom t debug r in Settles-below n inv quiet
