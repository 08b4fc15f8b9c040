-- ===== src/Prelude/Bits.antt =====
-- `&`, `|` and `^` of the native numbers as arithmetic on binary fields, at every width.
use Prim.Native.Nat.{
  ℕ, zero, suc, ◌+◌, ◌-◌, ◌*◌, ◌/◌, ◌%◌, ◌^◌, ◌≤◌, ◌<◌, min, max, bit_and, bit_or, bit_xor, digits,
  bitwise, differ, bit_xor-bitwise, bit_and-bitwise, bit_or-bitwise,
}
use mathlib.Core.Path.{◌≡◌, ◌∙◌, refl, ap}
use native.Mathlib.Nat.{le_refl, pow-suc, one-le-pow}
use native.Mathlib.Omega.{arith}

-- The recursion on digits does not depend on its fuel, once there is enough of it.
module _ (z : ℕ → ℕ) (f : ℕ → ℕ → ℕ) where
  settled : (k x : ℕ) → x ≤ k → (y fuel : ℕ) → x ≤ fuel → digits z f fuel x y ≡ bitwise z f x y
  settled k zero small y zero enough = refl
  settled k zero small y (suc fuel) enough = refl
  settled zero (suc x) small y fuel enough = absurd (omega arith)
  settled (suc k) (suc x) small y zero enough = absurd (omega arith)
  settled (suc k) (suc x) small y (suc fuel) enough =
      let half : suc x / 2 ≤ k = omega arith in
      omega (
        arith,
        settled k (suc x / 2) half (y / 2) fuel (omega arith),
        settled k (suc x / 2) half (y / 2) x (omega arith),
      )

  lowest_digit :
      (x y : ℕ)
      → bitwise z f (suc x) y ≡ 2 * bitwise z f (suc x / 2) (y / 2) + f (suc x % 2) (y % 2)
  lowest_digit x y =
      omega (arith, settled (suc x) (suc x / 2) (omega arith) (y / 2) x (omega arith))

pub bit_and_step : (x y : ℕ) → bit_and x y ≡ 2 * bit_and (x / 2) (y / 2) + min (x % 2) (y % 2)
bit_and_step zero y = omega (arith, bit_and-bitwise 0 y, bit_and-bitwise 0 (y / 2))
bit_and_step (suc x) y = simp bit_and-bitwise (lowest_digit (λ b. 0) min x y)

pub bit_or_step : (x y : ℕ) → bit_or x y ≡ 2 * bit_or (x / 2) (y / 2) + max (x % 2) (y % 2)
bit_or_step zero y = omega (arith, bit_or-bitwise 0 y, bit_or-bitwise 0 (y / 2))
bit_or_step (suc x) y = simp bit_or-bitwise (lowest_digit (λ b. b) max x y)

bit_and-zero_below : (n a : ℕ) → a ≤ n → bit_and a 0 ≡ 0
bit_and-zero_below n zero h = refl
bit_and-zero_below zero (suc a) h = absurd (omega arith)
bit_and-zero_below (suc n) (suc a) h =
    omega (arith, bit_and_step (suc a) 0, bit_and-zero_below n (suc a / 2) (omega arith))

pub bit_and-zero : (a : ℕ) → bit_and a 0 ≡ 0
bit_and-zero a = bit_and-zero_below a a (le_refl a)

pub zero-bit_and : (a : ℕ) → bit_and 0 a ≡ 0
zero-bit_and a = bit_and-bitwise 0 a

bit_or-zero_below : (n a : ℕ) → a ≤ n → bit_or a 0 ≡ a
bit_or-zero_below n zero h = refl
bit_or-zero_below zero (suc a) h = absurd (omega arith)
bit_or-zero_below (suc n) (suc a) h =
    omega (arith, bit_or_step (suc a) 0, bit_or-zero_below n (suc a / 2) (omega arith))

pub bit_or-zero : (a : ℕ) → bit_or a 0 ≡ a
bit_or-zero a = bit_or-zero_below a a (le_refl a)

pub zero-bit_or : (a : ℕ) → bit_or 0 a ≡ a
zero-bit_or a = bit_or-bitwise 0 a

pub scale_suc : (q k : ℕ) → q * 2 ^ suc k ≡ 2 * (q * 2 ^ k)
scale_suc q k = omega (arith, ap (λ (t : ℕ). q * t) (pow-suc 2 k))

-- Both operands split at bit `k`: the operation is done on each field.
pub bit_and_split :
    (k p q a b : ℕ)
    → a < 2 ^ k
    → b < 2 ^ k
    → bit_and (p * 2 ^ k + a) (q * 2 ^ k + b) ≡ bit_and p q * 2 ^ k + bit_and a b
bit_and_split zero p q a b h g =
    let hi_p : p * 2 ^ 0 + a ≡ p = omega arith in
    let hi_q : q * 2 ^ 0 + b ≡ q = omega arith in
    let lo : a ≡ 0 = omega arith in rw (hi_p, hi_q, lo) (omega (arith, zero-bit_and b))
bit_and_split (suc k) p q a b h g = ground (
  arith,
  bit_and_step (p * 2 ^ suc k + a) (q * 2 ^ suc k + b),
  bit_and_step a b,
  scale_suc p k,
  scale_suc q k,
  scale_suc (bit_and p q) k,
  pow-suc 2 k,
  bit_and_split k p q (a / 2) (b / 2) (omega (arith, pow-suc 2 k)) (omega (arith, pow-suc 2 k)),
)

pub bit_or_split :
    (k p q a b : ℕ)
    → a < 2 ^ k
    → b < 2 ^ k
    → bit_or (p * 2 ^ k + a) (q * 2 ^ k + b) ≡ bit_or p q * 2 ^ k + bit_or a b
bit_or_split zero p q a b h g =
    let hi_p : p * 2 ^ 0 + a ≡ p = omega arith in
    let hi_q : q * 2 ^ 0 + b ≡ q = omega arith in
    let lo : a ≡ 0 = omega arith in rw (hi_p, hi_q, lo) (omega (arith, zero-bit_or b))
bit_or_split (suc k) p q a b h g = ground (
  arith,
  bit_or_step (p * 2 ^ suc k + a) (q * 2 ^ suc k + b),
  bit_or_step a b,
  scale_suc p k,
  scale_suc q k,
  scale_suc (bit_or p q) k,
  pow-suc 2 k,
  bit_or_split k p q (a / 2) (b / 2) (omega (arith, pow-suc 2 k)) (omega (arith, pow-suc 2 k)),
)

-- `a & (2^k - 1)` keeps the `k` low bits.
pub bit_and-low_mask : (k a : ℕ) → a < 2 ^ k → bit_and a (2 ^ k - 1) ≡ a
bit_and-low_mask zero a h = let e : a ≡ 0 = omega arith in rw e
bit_and-low_mask (suc k) a h = ground (
  arith,
  bit_and_step a (2 ^ suc k - 1),
  pow-suc 2 k,
  one-le-pow k 2,
  bit_and-low_mask k (a / 2) (omega (arith, pow-suc 2 k)),
)

pub bit_and_mask : (k a : ℕ) → bit_and a (2 ^ k - 1) ≡ a % 2 ^ k
bit_and_mask k a = ground (
  arith,
  one-le-pow k 2,
  bit_and_split k (a / 2 ^ k) 0 (a % 2 ^ k) (2 ^ k - 1),
  bit_and-low_mask k (a % 2 ^ k),
  bit_and-zero (a / 2 ^ k),
)

-- `a & !(2^k - 1)` in a word of `k + m` bits clears the `k` low bits.
pub bit_and_high_mask :
    (k m a : ℕ) → a / 2 ^ k < 2 ^ m → bit_and a ((2 ^ m - 1) * 2 ^ k) ≡ a / 2 ^ k * 2 ^ k
bit_and_high_mask k m a h = ground (
  arith,
  one-le-pow k 2,
  bit_and_split k (a / 2 ^ k) (2 ^ m - 1) (a % 2 ^ k) 0,
  bit_and-low_mask m (a / 2 ^ k),
  bit_and-zero (a % 2 ^ k),
)

-- `(q << k) | r` is a sum when `r` fits `k` bits.
pub bit_or_fields : (k q r : ℕ) → r < 2 ^ k → bit_or (q * 2 ^ k) r ≡ q * 2 ^ k + r
bit_or_fields k q r h =
    ground (arith, one-le-pow k 2, bit_or_split k q 0 0 r, bit_or-zero q, zero-bit_or r)

pub bit_and-one : (a : ℕ) → bit_and a 1 ≡ a % 2
bit_and-one a = omega (arith, bit_and_step a 1, bit_and-zero (a / 2))

pub bit_or-one : (a : ℕ) → bit_or a 1 ≡ a / 2 * 2 + 1
bit_or-one a = omega (arith, bit_or_step a 1, bit_or-zero (a / 2))

bit_xor_step :
    (a b : ℕ) → bit_xor (suc a) b ≡ 2 * bit_xor (suc a / 2) (b / 2) + differ (suc a % 2) (b % 2)
bit_xor_step a b = simp bit_xor-bitwise (lowest_digit (λ b. b) differ a b)

differ-zero : (x : ℕ) → differ x 0 ≡ x
differ-zero zero = refl
differ-zero (suc x) = refl

bit_xor-zero_below : (n a : ℕ) → a ≤ n → bit_xor a 0 ≡ a
bit_xor-zero_below n zero h = refl
bit_xor-zero_below zero (suc a) h = absurd (omega arith)
bit_xor-zero_below (suc n) (suc a) h =
    bit_xor_step a 0
    ∙ omega (arith, bit_xor-zero_below n (suc a / 2) (omega arith), differ-zero (suc a % 2))

-- `a ^ 1` of an odd number clears its lowest bit.
pub bit_xor-one_odd : (a : ℕ) → a % 2 ≡ 1 → bit_xor a 1 ≡ a - 1
bit_xor-one_odd zero h = absurd (omega arith)
bit_xor-one_odd (suc a) h =
    ground (arith, bit_xor_step a 1, bit_xor-zero_below (suc a / 2) (suc a / 2) (le_refl _))
