-- ===== src/OnceCell/Others.antt =====
-- What another thread does leaves a thread where it can be, and where the contract has a thread.
use valet_parking.Prelude.{ℕ, ◌≤◌, ◌≡◌, ◌≢◌, Bool, true, Option, none, some, refl, arith, inl, inr}
use valet_parking.Word.{Target}
use valet_parking.Contract as Waiters
use valet_parking.Contract.{signal}
use valet_parking.Contract.Agreement.{signal-WaitsFor}
use valet_parking.OnceCell.{
  Pc, outside, getting, reading, loading, matching, writing, waking, storing, asserting, sleeping,
  waiting, reloading, unwrapping, unwrapping_cell, returned, panicked, running, complete, access,
  read,
}
use valet_parking.OnceCell.Invariant.{Phase, owned, ready, IsSome, At, is_owner}
use valet_parking.OnceCell.Accesses.{Seen-later}

module _ {ℓ} {A : Type ℓ} (t : Target) (size : 1 ≤ t.usize_bytes) where
  -- A thread that does not own the cell, when another one changes the phase by a write of the atomic.
  pub later-At :
      (c : Option A) (p r : Phase) (k : ℕ) (pc : Pc A) (q : Waiters.Pc)
      → (p ≡ ready → r ≡ ready)
      → p ≢ owned k
      → At t c p k pc q
      → At t c r k pc (signal q)
  later-At c p r k outside q keep other (e, _) = (rw e refl, _)
  later-At c p r k (getting init) q keep other (e, _) = (rw e refl, _)
  later-At c p r k (reading init) q keep other (e, is, _) = (rw e refl, keep is, _)
  later-At c p r k (loading v) q keep other (e, _) = (rw e refl, _)
  later-At c p r k (matching v a) q keep other (e, seen, _) =
      (rw e refl, Seen-later t p r a keep seen, _)
  later-At c p r k (writing v) q keep other (e, mine, _) = absurd (other mine)
  later-At c p r k waking q keep other (e, mine, _, _) = absurd (other mine)
  later-At c p r k storing q keep other (inl (e, mine, _), _) = absurd (other mine)
  later-At c p r k storing q keep other (inr (e, is), _) = (inr (rw e refl, keep is), _)
  later-At c p r k asserting q keep other (e, is, _) = (rw e refl, keep is, _)
  later-At c p r k (sleeping v) q keep other (e, _) = (rw e refl, _)
  later-At c p r k (waiting v) q keep other (inl w, _) = (inl (signal-WaitsFor _ q w), _)
  later-At c p r k (waiting v) q keep other (inr e, _) = (inr (rw e refl), _)
  later-At c p r k (reloading v) q keep other (e, _) = (rw e refl, _)
  later-At c p r k unwrapping q keep other (e, is, _) = (rw e refl, keep is, _)
  later-At c p r k unwrapping_cell q keep other (e, is, _) = (rw e refl, keep is, _)
  later-At c p r k (returned none) q keep other (e, _) = (rw e refl, _)
  later-At c p r k (returned (some v)) q keep other (e, is, same) = (rw e refl, keep is, same)
  later-At c p r k panicked q keep other at = at

  -- The other threads, when the owner writes the cell.
  pub fills-At :
      (c : Option A) (v : A) (i k : ℕ) (pc : Pc A) (q : Waiters.Pc)
      → i ≢ k
      → At t c (owned i) k pc q
      → At t (some v) (owned i) k pc q
  fills-At c v i k (writing w) q other (e, mine, _) = absurd (ground (arith, other))
  fills-At c v i k (returned (some w)) q other at = absurd (ground arith)
  fills-At c v i k waking q other at = ground arith
  fills-At c v i k storing q other at = ground arith
  fills-At c v i k pc q other at = at

  -- A thread that the contract has in a wait, or before the write of a store.
  pub waits_here :
      {e : ℕ} {signalled : Bool} (c : Option A) (p : Phase) (k : ℕ) (pc : Pc A) (q : Waiters.Pc)
      → q ≡ Waiters.waiting e signalled
      → At t c p k pc q
      → (v : A) × (pc ≡ waiting v) × (e ≡ running t)
  waits_here c p k (waiting v) q here (inl w, _) = (v, refl, rw here at w)
  waits_here c p k storing q here (inl (e, _, _), _) = absurd (ground arith)
  waits_here c p k storing q here (inr (e, _), _) = absurd (ground arith)
  waits_here c p k (returned none) q here at = absurd (ground arith)
  waits_here c p k (returned (some v)) q here at = absurd (ground arith)
  waits_here c p k (waiting v) q here (inr e, _) = absurd (ground arith)
  waits_here c p k pc q here at = absurd (ground arith)

  pub stores_here :
      {new : ℕ} (c : Option A) (p : Phase) (k : ℕ) (pc : Pc A) (q : Waiters.Pc)
      → q ≡ Waiters.storing new
      → At t c p k pc q
      → (pc ≡ storing) × (new ≡ complete t) × (p ≡ owned k) × IsSome c
  stores_here c p k storing q here (inl (e, mine, filled), _) = (refl, ground arith, mine, filled)
  stores_here c p k storing q here (inr (e, _), _) = absurd (ground arith)
  stores_here c p k (waiting v) q here (inl w, _) = absurd (rw here at w)
  stores_here c p k (waiting v) q here (inr e, _) = absurd (ground arith)
  stores_here c p k (returned none) q here at = absurd (ground arith)
  stores_here c p k (returned (some v)) q here at = absurd (ground arith)
  stores_here c p k pc q here at = absurd (ground arith)

  -- The owner of the cell stays its owner.
  pub access-is_owner :
      (word : ℕ) (pc : Pc A) → is_owner pc ≡ true → is_owner (access t word pc).pc ≡ true
  unfolding access
  access-is_owner word (writing v) mine = refl
  access-is_owner word waking mine = refl
  access-is_owner word storing mine = refl
  access-is_owner word pc mine = cc

  pub read-is_owner : (c : Option A) (pc : Pc A) → is_owner pc ≡ true → is_owner (read c pc) ≡ true
  unfolding read
  read-is_owner none (writing v) mine = refl
  read-is_owner none waking mine = refl
  read-is_owner none storing mine = refl
  read-is_owner (some w) (writing v) mine = refl
  read-is_owner (some w) waking mine = refl
  read-is_owner (some w) storing mine = refl
  read-is_owner c pc mine = cc
