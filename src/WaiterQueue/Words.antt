-- ===== src/WaiterQueue/Words.antt =====
-- The word of the atomic as its public bits and its pointer.
use native.Mathlib.Nat.{div-add-mod', div-eq_of_lt-le, div-lt_iff_lt-mul, mul-le-mul_right}
use valet_parking.Prelude.{ℕ, ◌+◌, ◌*◌, ◌/◌, ◌%◌, ◌<◌, ◌≤◌, bit_or, ◌≡◌, arith, ap, sym, ◌∙◌}
use valet_parking.Word.{Target, usize_mod, shr_usize}
use valet_parking.Reserved.{free_bits, IsFree}
use valet_parking.Reserved.Fields.{
  field, usize_mod-eq, field-pos, pub_bits_lem, pointer_lem, link_lem,
}
use valet_parking.WaiterQueue.{pub_bits, first}
use valet_parking.WaiterQueue.System.{IsNode}

pub fields_div : (f q r : ℕ) → r < f → (q * f + r) / f ≡ q
fields_div f q r h = div-eq_of_lt-le f (omega arith) (omega arith)

pub fields_mod : (f q r : ℕ) → r < f → (q * f + r) % f ≡ r
fields_mod f q r h =
    let e : (q * f + r) / f * f ≡ q * f = ap (λ (k : ℕ). k * f) (fields_div f q r h) in
    omega (arith, div-add-mod' (q * f + r) f)

-- The word that `compare_and_wait` tries to store.
abbrev pub linked : Target → (a node : ℕ) → ℕ
linked t a node = bit_or (pub_bits t a) (shr_usize node free_bits)

module _ (t : Target) (size : 1 ≤ t.usize_bytes) where
  linked_lem :
      (a node : ℕ)
      → a < usize_mod t
      → node < usize_mod t
      → linked t a node ≡ a / field t * field t + node / 32
  linked_lem a node fits h =
      ap (λ (b : ℕ). bit_or b (shr_usize node free_bits)) (pub_bits_lem t size a fits)
      ∙ link_lem t size (a / field t) node h

  upper_below : (node : ℕ) → node < usize_mod t → node / 32 < field t
  upper_below node h = omega (arith, usize_mod-eq t size)

  pub quotient_below : (a : ℕ) → a < usize_mod t → a / field t * field t + field t ≤ usize_mod t
  quotient_below a h =
      let below : a / field t < 32 =
        (div-lt_iff_lt-mul (field-pos t size)).1 (omega (arith, usize_mod-eq t size)) in
      omega (
        arith,
        mul-le-mul_right {m = a / field t + 1} {n = 32} (field t) (omega arith),
        usize_mod-eq t size,
      )

  pub linked-fits : (a node : ℕ) → a < usize_mod t → IsNode t node → linked t a node < usize_mod t
  linked-fits a node fits isn =
      rw (linked_lem a node fits isn.fits)
        (omega (arith, quotient_below a fits, upper_below node isn.fits))

  pub first-linked :
      (a node : ℕ) → a < usize_mod t → IsNode t node → first t (linked t a node) ≡ node
  first-linked a node fits isn =
      pointer_lem t size (linked t a node)
      ∙ rw (linked_lem a node fits isn.fits) (
          rw (fields_mod (field t) (a / field t) (node / 32) (upper_below node isn.fits))
            (omega (arith, isn.aligned)))

  pub pub_bits-linked :
      (a node : ℕ) → a < usize_mod t → IsNode t node → pub_bits t (linked t a node) ≡ pub_bits t a
  pub_bits-linked a node fits isn =
      pub_bits_lem t size (linked t a node) (linked-fits a node fits isn)
      ∙ rw (linked_lem a node fits isn.fits) (
          rw (fields_div (field t) (a / field t) (node / 32) (upper_below node isn.fits))
            (sym (pub_bits_lem t size a fits)))

  pub first-IsFree : (a : ℕ) → IsFree t a → first t a ≡ 0
  first-IsFree a free = rw free.no_reserved (omega arith)
