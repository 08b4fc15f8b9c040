-- ===== src/Prelude/Family.antt =====
-- Families indexed by thread, changed at one index.
use Prim.Native.Nat.{ℕ}
use mathlib.Core.Path.{◌≡◌, ap, refl, fun_ext}
use mathlib.Core.Logic.{ite, ◌≢◌}
use native.Mathlib.Decide.{ℕ_discrete}

abbrev pub update {ℓ} : {Local : Type ℓ} → (ℕ → Local) → ℕ → Local → ℕ → Local
update local thread value other = ite (ℕ_discrete thread other) value (local other)

-- What holds of the new value there, and of the old values elsewhere, holds of a changed family.
pub update_elim {ℓ ℓ'} :
    {Local : Type ℓ} (P : Local → Type ℓ') (f : ℕ → Local) (i : ℕ) (x : Local) (j : ℕ)
    → (i ≡ j → P x)
    → (i ≢ j → P (f j))
    → P (update f i x j)
update_elim P f i x j here there = elim (ℕ_discrete i j) as (λ d. P (ite d x (f j))) [
  | yes same ↦ here same
  | no other ↦ there other
]

-- To put the old value back changes nothing.
pub update_same {ℓ} : {Local : Type ℓ} (f : ℕ → Local) (i : ℕ) → update f i (f i) ≡ f
update_same f i =
    fun_ext (λ j. update_elim (λ x. x ≡ f j) f i (f i) j (λ same. ap f same) (λ other. refl))
