-- ===== src/OnceCell/Words.antt =====
-- The three states of the cell as words.
use valet_parking.Prelude.{ℕ, ◌*◌, ◌≤◌, ◌≡◌, ◌≢◌, ◌⊎◌, refl, arith, ap, ◌∙◌, inl, inr, Option}
use native.Mathlib.Nat.{mul-div_cancel}
use valet_parking.Word.{Target}
use valet_parking.Reserved.Fields.{field, field-pos, usize_mod-eq, pub_bits_lem}
use valet_parking.Contract.Agreement.{Reads}
use valet_parking.Contract as Waiters
use valet_parking.OnceCell.{incomplete, running, complete, pub_bits}
use valet_parking.OnceCell.Invariant.{Phase, fresh, owned, ready, State}

-- What a load finds tells the phase.
abbrev pub Found : Target → Phase → (word : ℕ) → Type 0
Found t p word =
    ((word ≡ incomplete t) × (p ≡ fresh))
    ⊎ ((pub_bits t word ≡ running t) × (i : ℕ) × (p ≡ owned i))
    ⊎ ((word ≡ complete t) × (p ≡ ready))

module _ (t : Target) (size : 1 ≤ t.usize_bytes) where
  pub running-pos : 1 ≤ running t
  running-pos = omega (arith, field-pos t size)

  pub public_lem : (n : ℕ) → n ≤ 2 → pub_bits t (n * field t) ≡ n * field t
  public_lem n small =
      let fits =
        pub_bits_lem t size (n * field t) (grind (arith, usize_mod-eq t size, field-pos t size)) in
      fits ∙ ap (λ (x : ℕ). x * field t) (mul-div_cancel n (omega (arith, field-pos t size)))

  pub pub_bits-complete : pub_bits t (complete t) ≡ complete t
  pub_bits-complete = public_lem 2 (omega arith)

  pub pub_bits-incomplete : pub_bits t (incomplete t) ≡ incomplete t
  pub_bits-incomplete = public_lem 0 (omega arith)

  pub running_apart : (word : ℕ) → pub_bits t word ≡ running t → word ≢ complete t
  running_apart word bits same =
      omega (arith, bits, ap (pub_bits t) same, pub_bits-complete, running-pos)

  pub load_lem {ℓ} :
      {A : Type ℓ} (w : Waiters.System) (c : Option A) (p : Phase) (word : ℕ)
      → State t p w.value w.marked c
      → Reads t w word
      → Found t p word
  load_lem w c fresh word (value, bare, empty) (bits, exact) = inl (exact bare ∙ value, refl)
  load_lem w c (owned i) word (value, _) (bits, exact) = inr (inl (bits ∙ value, i, refl))
  load_lem w c ready word (value, bare, filled, _) (bits, exact) =
      inr (inr (exact bare ∙ value, refl))

  pub fresh_lem : (p : Phase) (word : ℕ) → Found t p word → word ≡ incomplete t → p ≡ fresh
  fresh_lem p word (inl (same, is)) zero = is
  fresh_lem p word (inr (inl (bits, i, owner))) zero =
      absurd (omega (arith, bits, ap (pub_bits t) zero, public_lem 0, running-pos))
  fresh_lem p word (inr (inr (done, is))) zero = absurd (omega (arith, running-pos))
