-- ===== src/Prelude/Count.antt =====
-- How many of the first `n` threads a test holds of.
use Prim.Native.Nat.{ℕ, zero, suc, ◌+◌, ◌≤◌, ◌<◌}
use mathlib.Core.Path.{◌≡◌, refl}
use mathlib.Core.Bool.{Bool, true, false}
use native.Mathlib.Omega.{arith}
use valet_parking.Prelude.Tests.{if◌then◌else◌}
use valet_parking.Prelude.Family.{update}

abbrev pub count : (ℕ → Bool) → ℕ → ℕ
count test zero = 0
count test (suc n) = (if test n then 1 else 0) + count test n

pub count-le : (test : ℕ → Bool) (n : ℕ) → count test n ≤ n
count-le test zero = omega arith
count-le test (suc n) = ground (arith, count-le test n)

pub count-none : (n : ℕ) → count (λ _. false) n ≡ 0
count-none zero = refl
count-none (suc n) = omega (arith, count-none n)

count-above :
    (test : ℕ → Bool) (b : Bool) (i n : ℕ) → n ≤ i → count (update test i b) n ≡ count test n
count-above test b i zero h = refl
count-above test b i (suc n) h = ground (arith, count-above test b i n)

-- One more.
pub count-update :
    (test : ℕ → Bool) (i n : ℕ)
    → i < n
    → test i ≡ false
    → count (update test i true) n ≡ count test n + 1
count-update test i zero h e = absurd (omega arith)
count-update test i (suc n) h e = ground (arith, count-update test i n, count-above test true i n)
