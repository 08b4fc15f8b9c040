-- ===== src/Reserved.antt =====
-- src/lib.rs, the constants: the five high-order bits of a `usize` are free, the others reserved.
-- The fields that every implementation cuts a word into are described here by `/` and `%`.
pub mod Fields
use valet_parking.Prelude.{ℕ, ◌<◌, ◌≡◌, bit_and, ◌-◌, ◌*◌, ◌^◌}
use valet_parking.Word.{Target, usize_mod}

abbrev pub free_bits : ℕ
free_bits = 5

abbrev pub reserved_bits : Target → ℕ
reserved_bits t = t.usize_bytes * 8 - free_bits

abbrev pub reserved_mask : Target → ℕ
reserved_mask t = 1 * 2 ^ reserved_bits t - 1

-- What `Waiters` asks of the values of the atomic: no reserved bit is set.
pub record IsFree (t : Target) (a : ℕ) : Type 0 where
  pub word : a < usize_mod t
  pub no_reserved : bit_and a (reserved_mask t) ≡ 0
