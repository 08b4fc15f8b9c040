-- ===== src/OnceCell/Safety.antt =====
-- What a cell promises to the threads that ask for its value.
use valet_parking.Prelude.{
  ℕ, ◌≤◌, ◌≡◌, ◌≢◌, ◌⊎◌, Bool, true, false, Option, none, some, refl, arith, inl, inr, sym, ◌∙◌,
  ℕ_discrete,
}
use valet_parking.Word.{Target}
use valet_parking.Contract as Waiters
use valet_parking.OnceCell.{Pc, reading, writing, unwrapping_cell, returned, panicked}
use valet_parking.OnceCell.System.{System, Reach}
use valet_parking.OnceCell.Invariant.{Phase, owned, At, Inv}
use valet_parking.OnceCell.Kept.{Reach-Inv}
use valet_parking.OnceCell.Offered.{Offered, value-Offered}

-- The next step of the thread is an access of the cell.
abbrev pub touches {ℓ} : {A : Type ℓ} → Pc A → Bool
touches (reading init) = true
touches (writing v) = true
touches unwrapping_cell = true
touches pc = false

-- What the call has returned.
abbrev pub answer {ℓ} : {A : Type ℓ} → Pc A → Option A
answer (returned result) = result
answer pc = none

-- It is the write of the cell.
abbrev pub writes {ℓ} : {A : Type ℓ} → Pc A → Bool
writes (writing v) = true
writes pc = false

module _ {ℓ} {A : Type ℓ} (t : Target) (size : 1 ≤ t.usize_bytes) where
  At-calm :
      (c : Option A) (p : Phase) (k : ℕ) (pc : Pc A) (q : Waiters.Pc)
      → At t c p k pc q
      → pc ≢ panicked
  At-calm c p k panicked q at same = at.0
  At-calm c p k pc q at same = ground arith

  -- While another thread owns the cell.
  At-apart :
      (c : Option A) (i k : ℕ) (pc : Pc A) (q : Waiters.Pc)
      → i ≢ k
      → At t c (owned i) k pc q
      → touches pc ≡ false
  At-apart c i k (reading init) q other (e, is, _) = cc
  At-apart c i k (writing v) q other (e, mine, _) = absurd (ground (arith, other))
  At-apart c i k unwrapping_cell q other (e, is, _) = cc
  At-apart c i k pc q other at = refl

  -- With any number of threads that call get and get_or_init with any values on one OnceCell,
  -- over the contract of Waiters: in every reachable state any two calls that have returned a
  -- value have returned the same one, the cell holds it, and some call of get_or_init was given
  -- it.
  pub once_cell_agrees :
      {s : System A} (i k : ℕ) {v w : A}
      → (r : Reach t s) → s.pc i ≡ returned (some v)
      → s.pc k ≡ returned (some w)
      → (v ≡ w) × (s.value ≡ some v) × Offered t r v
  once_cell_agrees {s} i k {v} {w} r x y =
      let inv = Reach-Inv t size r in
      let (_, _, mine) = rw x at (inv.threads i) in
      let (_, _, other) = rw y at (inv.threads k) in
      (some_injective (sym mine ∙ other), mine, value-Offered t r mine)
    where
      some_injective : {a b : A} → some a ≡ some b → a ≡ b
      some_injective e = cc

  never_races :
      {s : System A} (i k : ℕ) (pc : Pc A)
      → Inv t s
      → s.pc i ≡ pc
      → (writes pc ≡ false) ⊎ ((s.value ≡ none) × ((i ≡ k) ⊎ (touches (s.pc k) ≡ false)))
  never_races {s} i k (writing v) inv w =
      let (_, mine, empty) = rw w at (inv.threads i) in
      inr (
        empty,
        elim (ℕ_discrete i k) [
          | yes same ↦ inl same
          | no other ↦ inr (At-apart s.value i k (s.pc k) _ other (rw mine at (inv.threads k)))
        ],
      )
  never_races i k pc inv w = inl refl

  -- In every reachable state of a OnceCell over the contract of Waiters, no assertion or unwrap
  -- of it has failed, and whenever a thread is about to write the cell, the cell is empty and no
  -- other thread is about to read or write it.
  pub once_cell_is_sound :
      {s : System A} (i k : ℕ)
      → Reach t s
      → (s.pc k ≢ panicked)
        × ((writes (s.pc i) ≡ false) ⊎ ((s.value ≡ none) × ((i ≡ k) ⊎ (touches (s.pc k) ≡ false))))
  once_cell_is_sound {s} i k r =
      let inv = Reach-Inv t size r in
      (At-calm s.value inv.phase k (s.pc k) _ (inv.threads k), never_races i k (s.pc i) inv refl)

  answer-At :
      (c : Option A) (p : Phase) (k : ℕ) (pc : Pc A) (q : Waiters.Pc)
      → At t c p k pc q
      → (answer pc ≡ none) ⊎ (answer pc ≡ c)
  answer-At c p k (returned none) q at = inl refl
  answer-At c p k (returned (some v)) q (e, is, held) = inr (sym held)
  answer-At c p k pc q at = inl refl

  pub answers_lem :
      {s : System A} (k : ℕ) → Reach t s → (answer (s.pc k) ≡ none) ⊎ (answer (s.pc k) ≡ s.value)
  answers_lem {s} k r = answer-At s.value _ k (s.pc k) _ ((Reach-Inv t size r).threads k)
