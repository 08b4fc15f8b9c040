-- ===== src/PosixParker/Words.antt =====
-- The bit operations of `park` and `unpark` at the words that occur.
use native.Mathlib.Nat.{mod-eq_of_lt, one-le-pow, pow-suc}
use valet_parking.Prelude.{
  ℕ, suc, ◌+◌, ◌-◌, ◌*◌, ◌/◌, ◌%◌, ◌^◌, ◌≤◌, ◌<◌, bit_and, bit_xor, ◌≡◌, ◌∙◌, ap, arith,
}
use valet_parking.Prelude.Bits.{
  bit_and_step, bit_xor-one_odd, bit_and-low_mask, zero-bit_and, bit_and_split, bit_and-one,
}
use valet_parking.Word.{Target, bits, usize_mod, not_usize, shl_usize, shr_usize}
use valet_parking.Reserved.{free_bits, reserved_bits, reserved_mask}
use valet_parking.Reserved.Fields.{field, field-pos, usize_mod-eq, reserved_lem}
use valet_parking.PosixParker.{notify_bit, ptr_bits}
use valet_parking.PosixParker.System.{IsAddress}

module _ (t : Target) (size : 1 ≤ t.usize_bytes) where
  abbrev pub half_field : ℕ
  half_field = 2 ^ (reserved_bits t - 1)

  pub field-half : field t ≡ 2 * half_field
  field-half =
      let e : reserved_bits t ≡ suc (reserved_bits t - 1) = omega arith in
      ap (λ (n : ℕ). 2 ^ n) e ∙ omega (arith, pow-suc 2 (reserved_bits t - 1))

  pub and_mask : (x : ℕ) → x < field t → bit_and x (reserved_mask t) ≡ x
  and_mask x h = reserved_lem t size x ∙ mod-eq_of_lt h

  pub ptr_bits-eq : ptr_bits t ≡ field t - 2
  ptr_bits-eq =
      let e : reserved_mask t ≡ field t - 1 = omega arith in
      ap (λ (m : ℕ). bit_xor m 1) e
      ∙ bit_xor-one_odd (field t - 1)
          (omega (arith, field-half, one-le-pow (reserved_bits t - 1) 2 (omega arith)))
      ∙ omega arith

  pub and_ptr_bits : (x : ℕ) → x < field t → bit_and x (ptr_bits t) ≡ x / 2 * 2
  and_ptr_bits x h =
      let e : (field t - 2) / 2 ≡ half_field - 1 = omega (arith, field-half) in
      ap (bit_and x) ptr_bits-eq
      ∙ bit_and_step x (field t - 2)
      ∙ ground (
        arith,
        field-half,
        ap (bit_and (x / 2)) e,
        bit_and-low_mask (reserved_bits t - 1) (x / 2) (omega (arith, field-half)),
      )

  pub and_not_ptr_bits : (x : ℕ) → x < field t → bit_and x (not_usize t (ptr_bits t)) ≡ x % 2
  and_not_ptr_bits x h =
      let e : not_usize t (ptr_bits t) ≡ 31 * field t + 1 = omega (
        arith,
        ptr_bits-eq,
        usize_mod-eq t size,
        field-half,
        one-le-pow (reserved_bits t - 1) 2 (omega arith),
      ) in
      ap (bit_and x) e
      ∙ ap (λ (y : ℕ). bit_and y (31 * field t + 1)) (omega arith)
      ∙ bit_and_split (reserved_bits t) 0 31 x 1 h
          (omega (arith, field-half, one-le-pow (reserved_bits t - 1) 2 (omega arith)))
      ∙ omega (arith, zero-bit_and 31, bit_and-one x)

  pub and_not_notify : (x : ℕ) → x < field t → bit_and x (not_usize t notify_bit) ≡ x / 2 * 2
  and_not_notify x h =
      let w : bits t ≡ suc (bits t - 1) = omega arith in
      let m : usize_mod t ≡ 2 * 2 ^ (bits t - 1) =
        ap (λ (n : ℕ). 2 ^ n) w ∙ omega (arith, pow-suc 2 (bits t - 1)) in
      let e : not_usize t notify_bit / 2 ≡ 2 ^ (bits t - 1) - 1 = omega (arith, m) in
      bit_and_step x (not_usize t notify_bit)
      ∙ ground (
        arith,
        m,
        one-le-pow (bits t - 1) 2 (omega arith),
        ap (bit_and (x / 2)) e,
        bit_and-low_mask (bits t - 1) (x / 2)
            (omega (arith, m, usize_mod-eq t size, field-pos t size)),
      )

  -- Address and pointer bits of a `PosixParker`.
  pub ptr_lem :
      {a : ℕ}
      → IsAddress t a
      → (2 ≤ shr_usize a 5)
        × (shr_usize a 5 % 2 ≡ 0)
        × (shr_usize a 5 + 1 < field t)
        × (shl_usize t (shr_usize a 5) free_bits ≡ a)
  ptr_lem {a} ok = (
    omega (arith, ok),
    omega (arith, ok),
    omega (arith, ok, usize_mod-eq t size, field-half),
    (let e : shr_usize a 5 * 2 ^ free_bits ≡ a = omega (arith, ok) in
        ap (λ (n : ℕ). n % usize_mod t) e ∙ mod-eq_of_lt ok.fits),
  )
