-- ===== src/OnceCell/Invariant.antt =====
-- What holds in every reachable state: a cell is fresh, or one thread is initialising it, or it is
-- ready; and every thread stands where it can in that phase.
use valet_parking.Prelude.{ℕ, ◌≡◌, ◌⊎◌, Bool, true, false, Option, none, some}
use valet_parking.Word.{Target}
use valet_parking.Contract as Waiters
use valet_parking.Contract.Agreement.{WaitsFor}
use valet_parking.OnceCell.{
  Pc, outside, getting, reading, loading, matching, writing, waking, storing, asserting, sleeping,
  waiting, reloading, unwrapping, unwrapping_cell, returned, panicked, incomplete, running,
  complete, pub_bits,
}
use valet_parking.OnceCell.System.{System}

pub data Phase : Type 0 where
  fresh : Phase
  owned : (thread : ℕ) → Phase
  ready : Phase

abbrev pub IsSome {ℓ} : {A : Type ℓ} → Option A → Type 0
IsSome none = ⊥
IsSome (some v) = Unit

-- What a thread may have read from the atomic.
abbrev pub Seen : Target → Phase → (state : ℕ) → Type 0
Seen t p a = (a ≡ incomplete t) ⊎ (pub_bits t a ≡ running t) ⊎ ((a ≡ complete t) × (p ≡ ready))

-- The thread that initialises the cell.
abbrev pub is_owner {ℓ} : {A : Type ℓ} → Pc A → Bool
is_owner (writing v) = true
is_owner waking = true
is_owner storing = true
is_owner pc = false

module _ {ℓ} {A : Type ℓ} (t : Target) where
  -- The atomic and the cell in each phase.
  abbrev pub State : Phase → (state : ℕ) → (marked : Bool) → Option A → Type ℓ
  State fresh a m c = (a ≡ incomplete t) × (m ≡ false) × (c ≡ none)
  State (owned i) a m c = (a ≡ running t) × Unit {ℓ}
  State ready a m c = (a ≡ complete t) × (m ≡ false) × IsSome c × Unit {ℓ}

  -- Where thread `k` stands, and where the contract of `Waiters` has it.
  abbrev pub At : Option A → Phase → (k : ℕ) → Pc A → Waiters.Pc → Type ℓ
  At c p k outside q = (q ≡ Waiters.idle) × Unit {ℓ}
  At c p k (getting init) q = (q ≡ Waiters.idle) × Unit {ℓ}
  At c p k (reading init) q = (q ≡ Waiters.idle) × (p ≡ ready) × Unit {ℓ}
  At c p k (loading v) q = (q ≡ Waiters.idle) × Unit {ℓ}
  At c p k (matching v a) q = (q ≡ Waiters.idle) × Seen t p a × Unit {ℓ}
  At c p k (writing v) q = (q ≡ Waiters.idle) × (p ≡ owned k) × (c ≡ none)
  At c p k waking q = (q ≡ Waiters.idle) × (p ≡ owned k) × IsSome c × Unit {ℓ}
  At c p k storing q =
      (((q ≡ Waiters.storing (complete t)) × (p ≡ owned k) × IsSome c)
        ⊎ ((q ≡ Waiters.leaving) × (p ≡ ready)))
      × Unit {ℓ}
  At c p k asserting q = (q ≡ Waiters.idle) × (p ≡ ready) × Unit {ℓ}
  At c p k (sleeping v) q = (q ≡ Waiters.idle) × Unit {ℓ}
  At c p k (waiting v) q = (WaitsFor (running t) q ⊎ (q ≡ Waiters.leaving)) × Unit {ℓ}
  At c p k (reloading v) q = (q ≡ Waiters.idle) × Unit {ℓ}
  At c p k unwrapping q = (q ≡ Waiters.idle) × (p ≡ ready) × Unit {ℓ}
  At c p k unwrapping_cell q = (q ≡ Waiters.idle) × (p ≡ ready) × Unit {ℓ}
  At c p k (returned none) q = (q ≡ Waiters.idle) × Unit {ℓ}
  At c p k (returned (some v)) q = (q ≡ Waiters.idle) × (p ≡ ready) × (c ≡ some v)
  At c p k panicked q = ⊥ × Unit {ℓ}

  pub record Inv (s : System A) : Type ℓ where
    pub phase : Phase
    pub state : State phase s.waiters.value s.waiters.marked s.value
    pub owner : (j : ℕ) → phase ≡ owned j → is_owner (s.pc j) ≡ true
    pub threads : (k : ℕ) → At s.value phase k (s.pc k) (s.waiters.pc k)
