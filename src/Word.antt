-- ===== src/Word.antt =====
-- Machine words as native numbers. A `usize` has `bits t` binary digits, and every operation keeps
-- its wrap-around written out; `i64` values are integers with the range tests of `checked_*`.
use valet_parking.Prelude.{
  ℕ, ◌+◌, ◌-◌, ◌*◌, ◌/◌, ◌%◌, ◌^◌, ◌≡◌, ◌⊎◌, Bool, Option, none, some, leb, if◌then◌else◌,
}
use valet_parking.Prelude.Int.{ℤ, pos, negsuc}

-- What the target decides: `size_of::<usize>()` and the byte order.
pub record Target : Type 0 where
  pub usize_bytes : ℕ
  pub big_endian : Bool

-- The targets that the source distinguishes have 4 or 8 bytes in a `usize`.
abbrev pub IsTarget : Target → Type 0
IsTarget t = (t.usize_bytes ≡ 4) ⊎ (t.usize_bytes ≡ 8)

abbrev pub bits : Target → ℕ
bits t = t.usize_bytes * 8

abbrev pub usize_mod : Target → ℕ
usize_mod t = 2 ^ bits t

-- `!x`, `x << k` and `x >> k` on `usize`.
abbrev pub not_usize : Target → ℕ → ℕ
not_usize t x = usize_mod t - 1 - x

abbrev pub shl_usize : Target → ℕ → ℕ → ℕ
shl_usize t x k = x * 2 ^ k % usize_mod t

abbrev pub shr_usize : ℕ → ℕ → ℕ
shr_usize x k = x / 2 ^ k

abbrev pub u32_max : ℕ
u32_max = 2 ^ 32 - 1

abbrev pub i32_max : ℕ
i32_max = 2 ^ 31 - 1

abbrev pub u64_max : ℕ
u64_max = 2 ^ 64 - 1

abbrev pub i64_max : ℕ
i64_max = 2 ^ 63 - 1

-- `u64::checked_mul` and `u64::checked_add`.
abbrev pub checked_mul_u64 : ℕ → ℕ → Option ℕ
checked_mul_u64 a b = if leb (a * b) u64_max then some (a * b) else none

abbrev pub checked_add_u64 : ℕ → ℕ → Option ℕ
checked_add_u64 a b = if leb (a + b) u64_max then some (a + b) else none

-- -2^63, and the test that a result fits an `i64`.
abbrev pub i64_min : ℤ
i64_min = negsuc i64_max

abbrev pub fits_i64 : ℤ → Bool
fits_i64 (pos n) = leb n i64_max
fits_i64 (negsuc n) = leb n i64_max

abbrev pub checked_i64 : ℤ → Option ℤ
checked_i64 z = if fits_i64 z then some z else none
