-- ===== src/OnceCell/Following.antt =====
-- Runs of the contract as runs of the cell over it.
use valet_parking.Prelude.{
  ℕ, ◌≤◌, ◌*◌, ◌<◌, ◌≡◌, Option, none, some, List, [], ◌∷◌, refl, arith, ◌∙◌, inl, inr,
}
use valet_parking.Word.{Target, usize_mod}
use valet_parking.Reserved.{IsFree}
use valet_parking.Reserved.Fields.{
  field, field-pos, usize_mod-eq, reserved_lem, word_split, pub_bits_lem,
}
use valet_parking.Contract as Waiters
use valet_parking.Contract.{Event, Traced, follows, signal}
use valet_parking.WaiterQueue.{
  Pc, loading, trying, waiting, reloading, swapping, walking, unparking,
}
use valet_parking.WaiterQueue as Q
use valet_parking.WaiterQueue.Agreement.{Matches}
use valet_parking.OnceCell
use valet_parking.OnceCell.{access, incomplete, running, complete}
use valet_parking.OnceCell.System as Cell
use valet_parking.OnceCell.Words.{public_lem}

module _ {ℓ} {A : Type ℓ} (t : Target) (c : Option A) where
  -- The cell over the contract, where the contract stands at `a`.
  abbrev pub at : Waiters.System → (ℕ → OnceCell.Pc A) → Cell.System A
  at a pc = record { waiters = a; value = c; pc = pc }

  -- A run of the contract that nobody sees.
  pub silent-Reach :
      {a b : Waiters.System} {trace : List Event} (pc : ℕ → OnceCell.Pc A)
      → Traced a b trace
      → trace ≡ []
      → Cell.Reach t (at a pc)
      → Cell.Reach t (at b pc)
  silent-Reach pc Waiters.start e r = r
  silent-Reach pc (Waiters.later {seen = none} run step) e r =
      Cell.later (silent-Reach pc run e r) (Cell.inside step)
  silent-Reach pc (Waiters.later {seen = some event} run step) e r = absurd (ground arith)

  -- A run with one event, at which the client moves.
  pub event-Reach :
      {a b : Waiters.System} {trace : List Event} {event : Event} (pc next : ℕ → OnceCell.Pc A)
      → Traced a b trace
      → trace ≡ event ∷ []
      → ((x y : Waiters.System) → Waiters.Step x (some event) y → Cell.Step t (at x pc) (at y next))
      → Cell.Reach t (at a pc)
      → Cell.Reach t (at b next)
  event-Reach pc next Waiters.start e moves r = absurd (ground arith)
  event-Reach pc next (Waiters.later {seen = none} run step) e moves r =
      Cell.later (event-Reach pc next run e moves r) (Cell.inside step)
  event-Reach {event} pc next (Waiters.later {s} {u} {trace} {seen = some other} run step) e moves
        r =
      let same : other ≡ event = ground arith in
      let rest : trace ≡ [] = ground arith in
      Cell.later (silent-Reach pc run rest r) (moves s u (rw same at step))

-- A thread that the contract has outside is outside.
pub Matches-outside :
    (t : Target) (pc : Pc) (q : Waiters.Pc) → Matches t pc q → q ≡ Waiters.idle → pc ≡ Q.outside
Matches-outside t Q.outside q m e = refl
Matches-outside t (loading x) q m e = absurd (rw e at m)
Matches-outside t (trying x c) q (inl (same, w)) e = absurd (rw e at w)
Matches-outside t (trying x c) q (inr (other, left)) e = absurd (ground arith)
Matches-outside t (waiting x p n u) q m e = absurd (rw e at m)
Matches-outside t (reloading x) q m e = absurd (rw e at m)
Matches-outside t (swapping new) q m e = absurd (ground arith)
Matches-outside t (walking p) q m e = absurd (ground arith)
Matches-outside t (unparking p n) q m e = absurd (ground arith)

module _ (t : Target) (size : 1 ≤ t.usize_bytes) where
  -- The states of the cell have no reserved bit.
  pub state-IsFree : (n : ℕ) → n ≤ 2 → IsFree t (n * field t)
  state-IsFree n small =
      let fits : n * field t < usize_mod t = grind (arith, usize_mod-eq t size, field-pos t size) in
      record {
        word = fits;
        no_reserved =
            reserved_lem t size (n * field t)
            ∙ omega (
              arith,
              word_split t size (n * field t),
              public_lem t size n small,
              pub_bits_lem t size (n * field t) fits,
            );
      }
