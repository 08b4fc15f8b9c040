-- ===== src/Reserved/Fields.antt =====
-- The masks of a word as arithmetic, for every size of `usize`.
use native.Mathlib.Nat.{one-le-pow, pow-suc, mod-eq_of_lt}
use native.Mathlib.Numerals.{towards_suc}
use valet_parking.Prelude.{
  ℕ, ◌+◌, ◌-◌, ◌*◌, ◌/◌, ◌%◌, ◌^◌, ◌≤◌, ◌<◌, bit_and, bit_or, ◌≡◌, arith, ap, ◌∙◌,
}
use valet_parking.Prelude.Bits.{bit_and_mask, bit_and_high_mask, bit_or_fields}
use valet_parking.Word.{Target, bits, usize_mod, not_usize, shl_usize, shr_usize}
use valet_parking.Reserved.{free_bits, reserved_bits, reserved_mask}

-- A shorter name for 2 to the number of reserved bits.
abbrev pub field : Target → ℕ
field t = 2 ^ reserved_bits t

pow_add_five : (n : ℕ) → 2 ^ (n + 5) ≡ 32 * 2 ^ n
pow_add_five n = simp towards_suc (omega (arith, pow-suc 2 n, pow-suc 2 (n + 1)))

module _ (t : Target) (size : 1 ≤ t.usize_bytes) where
  pub usize_mod-eq : usize_mod t ≡ 32 * field t
  usize_mod-eq =
      let e : bits t ≡ reserved_bits t + 5 = omega arith in
      ap (λ (n : ℕ). 2 ^ n) e ∙ pow_add_five (reserved_bits t)

  pub field-pos : 1 ≤ field t
  field-pos = one-le-pow (reserved_bits t) 2 (omega arith)

  pub reserved_lem : (x : ℕ) → bit_and x (reserved_mask t) ≡ x % field t
  reserved_lem x =
      let e : reserved_mask t ≡ field t - 1 = omega arith in
      ap (bit_and x) e ∙ bit_and_mask (reserved_bits t) x

  pub pub_bits_lem :
      (x : ℕ) → x < usize_mod t → bit_and x (not_usize t (reserved_mask t)) ≡ x / field t * field t
  pub_bits_lem x h =
      let e : not_usize t (reserved_mask t) ≡ (2 ^ 5 - 1) * field t =
        omega (arith, usize_mod-eq, field-pos) in
      ap (bit_and x) e
      ∙ bit_and_high_mask (reserved_bits t) 5 x (grind (arith, usize_mod-eq, field-pos))

  -- A word is its public bits and its reserved bits, and nothing else.
  pub word_split : (x : ℕ) → x ≡ x / field t * field t + x % field t
  word_split x = omega (arith, field-pos)

  -- The pointer that the reserved bits hold: shifting left by five does not overflow.
  pub pointer_lem : (x : ℕ) → shl_usize t (bit_and x (reserved_mask t)) free_bits ≡ x % field t * 32
  pointer_lem x = rw (reserved_lem x) (
      omega (
        arith,
        usize_mod-eq,
        field-pos,
        mod-eq_of_lt {n = x % field t * 32} {m = usize_mod t}
            (omega (arith, usize_mod-eq, field-pos)),
      ))

  -- Public bits `c` joined to the upper bits of an address.
  pub link_lem :
      (c a : ℕ)
      → a < usize_mod t
      → bit_or (c * field t) (shr_usize a free_bits) ≡ c * field t + a / 32
  link_lem c a h = bit_or_fields (reserved_bits t) c (a / 32) (omega (arith, usize_mod-eq))
