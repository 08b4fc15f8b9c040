-- ===== src/FutexWaiters/Words.antt =====
-- The two kinds of words that the atomic holds: public bits alone, or with `HAS_WAITERS`.
use native.Mathlib.Nat.{one-le-pow, mul-le-mul_left}
use valet_parking.Prelude.{
  ℕ, ◌+◌, ◌*◌, ◌/◌, ◌%◌, ◌^◌, ◌≤◌, ◌<◌, ◌≡◌, ◌≢◌, ◌⊎◌, inl, inr, bit_and, bit_or, arith, ap, sym,
  ◌∙◌, true, false, Bool-cases, refl,
}
use valet_parking.Prelude.Bits.{bit_and_split, bit_or_fields, bit_and-one}
use valet_parking.Word.{Target, IsTarget, usize_mod}
use valet_parking.Reserved.{reserved_bits, IsFree}
use valet_parking.Reserved.Fields.{field, field-pos, reserved_lem, pub_bits_lem, word_split}
use valet_parking.WaiterQueue.Words.{fields_div, fields_mod, quotient_below}
use valet_parking.FutexWaiters.{uncompared_lo_bits, has_waiters, pub_bits, get_i32_ref, compared}

-- The kernel compares the public bits too.
abbrev pub IsWhole : Target → Type 0
IsWhole t = (t.usize_bytes ≡ 4) ⊎ ((t.usize_bytes ≡ 8) × (t.big_endian ≡ true))

-- The three targets.
data Kind (t : Target) : Type 0 where
  narrow : t.usize_bytes ≡ 4 → Kind t
  little : t.usize_bytes ≡ 8 → t.big_endian ≡ false → Kind t
  big : t.usize_bytes ≡ 8 → t.big_endian ≡ true → Kind t

kind : (t : Target) → IsTarget t → Kind t
kind t (inl e) = narrow e
kind t (inr e) = elim (Bool-cases t.big_endian) [ inl b ↦ big e b | inr b ↦ little e b ]

pub IsTarget-positive : (t : Target) → IsTarget t → 1 ≤ t.usize_bytes
IsTarget-positive t (inl e) = omega arith
IsTarget-positive t (inr e) = omega arith

-- `HAS_WAITERS` is a reserved bit.
has_below : (t : Target) → Kind t → (g : ℕ) × (field t ≡ has_waiters t * (2 * g)) × (1 ≤ g)
has_below t (narrow e) = (2 ^ 26, rw e refl, omega arith)
has_below t (little e b) = (2 ^ 58, rw e (rw b refl), omega arith)
has_below t (big e b) = (2 ^ 26, rw e (rw b refl), omega arith)

-- The same by numbers: the size of the reserved field, the number of low bits that are not compared,
-- and what the kernel reads.
narrow_reads :
    (t : Target) (a : ℕ)
    → t.usize_bytes ≡ 4
    → (field t ≡ 2 ^ 27)
      × (uncompared_lo_bits t ≡ 0)
      × (get_i32_ref t a ≡ a)
      × (usize_mod t ≡ 2 ^ 32)
narrow_reads t a w = rw w (refl, refl, refl, refl)

little_reads :
    (t : Target) (a : ℕ)
    → t.usize_bytes ≡ 8
    → t.big_endian ≡ false
    → (field t ≡ 2 ^ 59)
      × (uncompared_lo_bits t ≡ 0)
      × (get_i32_ref t a ≡ a % 2 ^ 32)
      × (usize_mod t ≡ 2 ^ 64)
little_reads t a w b = rw (w, b) (refl, refl, refl, refl)

big_reads :
    (t : Target) (a : ℕ)
    → t.usize_bytes ≡ 8
    → t.big_endian ≡ true
    → (field t ≡ 2 ^ 59)
      × (uncompared_lo_bits t ≡ 32)
      × (get_i32_ref t a ≡ a / 2 ^ 32)
      × (usize_mod t ≡ 2 ^ 64)
big_reads t a w b = rw (w, b) (refl, refl, refl, refl)

module _ (t : Target) (is : IsTarget t) where
  size : 1 ≤ t.usize_bytes
  size = IsTarget-positive t is

  has_lt-field : 1 ≤ has_waiters t × has_waiters t < field t
  has_lt-field =
      let (g, e, positive) = has_below t (kind t is) in
      let one : 1 ≤ has_waiters t =
        omega (arith, one-le-pow (uncompared_lo_bits t) 2 (omega arith)) in
      let twice : has_waiters t * 2 ≤ has_waiters t * (2 * g) =
        mul-le-mul_left {m = 2} {n = 2 * g} (has_waiters t) (omega arith) in
      (one, omega arith)

  pub free_split : (a : ℕ) → IsFree t a → a ≡ a / field t * field t
  free_split a free = omega (arith, word_split t size a, free.no_reserved, reserved_lem t size a)

  free_rest : (a : ℕ) {n : ℕ} → IsFree t a → field t ≡ n → a % n ≡ 0
  free_rest a free e =
      ap (λ (f : ℕ). a % f) (sym e) ∙ sym (reserved_lem t size a) ∙ free.no_reserved

  -- A free word is an even number of times `HAS_WAITERS`.
  even_part : (a : ℕ) → IsFree t a → (p : ℕ) × (a ≡ 2 * p * 2 ^ uncompared_lo_bits t + 0)
  even_part a free =
      let (g, e, positive) = has_below t (kind t is) in
      (a / field t * g, free_split a free ∙ ap (λ (f : ℕ). a / field t * f) e ∙ omega arith)

  pub flagged_lem : (a : ℕ) → IsFree t a → bit_or a (has_waiters t) ≡ a + has_waiters t
  flagged_lem a free =
      ap (λ (x : ℕ). bit_or x (has_waiters t)) (free_split a free)
      ∙ bit_or_fields (reserved_bits t) (a / field t) (has_waiters t) (has_lt-field.1)
      ∙ ap (λ (x : ℕ). x + has_waiters t) (sym (free_split a free))

  pub has_flagged :
      (a : ℕ) → IsFree t a → bit_and (a + has_waiters t) (has_waiters t) ≡ has_waiters t
  has_flagged a free =
      let (p, e) = even_part a free in
      let lo = uncompared_lo_bits t in
      let bit : has_waiters t ≡ 1 * 2 ^ lo + 0 = omega arith in
      let odd : a + has_waiters t ≡ (2 * p + 1) * 2 ^ lo + 0 = omega arith in
      let digit : bit_and (2 * p + 1) 1 ≡ 1 = omega (arith, bit_and-one (2 * p + 1)) in
      ap (λ (x : ℕ). bit_and x (has_waiters t)) odd
      ∙ ap (bit_and ((2 * p + 1) * 2 ^ lo + 0)) bit
      ∙ bit_and_split lo (2 * p + 1) 1 0 0 (one-le-pow lo 2 (omega arith))
          (one-le-pow lo 2 (omega arith))
      ∙ ap (λ (x : ℕ). x * 2 ^ lo + 0) digit
      ∙ omega arith

  pub has_free : (a : ℕ) → IsFree t a → bit_and a (has_waiters t) ≢ has_waiters t
  has_free a free e =
      let (p, even) = even_part a free in
      let lo = uncompared_lo_bits t in
      let bit : has_waiters t ≡ 1 * 2 ^ lo + 0 = omega arith in
      let digit : bit_and (2 * p) 1 ≡ 0 = omega (arith, bit_and-one (2 * p)) in
      let none : bit_and a (has_waiters t) ≡ 0 =
        ap (λ (x : ℕ). bit_and x (has_waiters t)) even
        ∙ ap (bit_and (2 * p * 2 ^ lo + 0)) bit
        ∙ bit_and_split lo (2 * p) 1 0 0 (one-le-pow lo 2 (omega arith))
            (one-le-pow lo 2 (omega arith))
        ∙ ap (λ (x : ℕ). x * 2 ^ lo + 0) digit
        ∙ omega arith in
      omega (arith, has_lt-field)

  pub flagged_fits : (a : ℕ) → IsFree t a → a + has_waiters t < usize_mod t
  flagged_fits a free =
      let quotient : a / field t * field t + field t ≤ usize_mod t =
        quotient_below t size a free.word in
      omega (arith, has_lt-field.1, free_split a free)

  pub pub_bits-flagged : (a : ℕ) → IsFree t a → pub_bits t (a + has_waiters t) ≡ a
  pub_bits-flagged a free =
      pub_bits_lem t size (a + has_waiters t) (flagged_fits a free)
      ∙ ap (λ (x : ℕ). x * field t)
          (ap (λ (x : ℕ). (x + has_waiters t) / field t) (free_split a free)
            ∙ fields_div (field t) (a / field t) (has_waiters t) has_lt-field.1)
      ∙ sym (free_split a free)

  pub pub_bits-free : (a : ℕ) → IsFree t a → pub_bits t a ≡ a
  pub_bits-free a free = pub_bits_lem t size a free.word ∙ sym (free_split a free)

  pub pub_bits-IsFree : (a : ℕ) → a < usize_mod t → IsFree t (pub_bits t a)
  pub_bits-IsFree a h = record {
    word = omega (arith, pub_bits_lem t size a h, word_split t size a);
    no_reserved =
        reserved_lem t size (pub_bits t a)
        ∙ ap (λ (x : ℕ). x % field t) (pub_bits_lem t size a h ∙ omega arith)
        ∙ fields_mod (field t) (a / field t) 0 (field-pos t size);
  }

  compared_lem :
      (e : ℕ) {lo : ℕ}
      → IsFree t e
      → uncompared_lo_bits t ≡ lo
      → compared t e ≡ (e + 1 * 2 ^ lo) / 2 ^ lo % 2 ^ 32
  compared_lem e fe same =
      ap (λ (x : ℕ). x / 2 ^ uncompared_lo_bits t % 2 ^ 32) (flagged_lem e fe)
      ∙ ap (λ (l : ℕ). (e + 1 * 2 ^ l) / 2 ^ l % 2 ^ 32) same

  has_lem : {lo : ℕ} → uncompared_lo_bits t ≡ lo → has_waiters t ≡ 1 * 2 ^ lo
  has_lem same = ap (λ (l : ℕ). 1 * 2 ^ l) same

  pub compared-free : (a e : ℕ) → IsFree t a → IsFree t e → get_i32_ref t a ≢ compared t e
  compared-free a e fa fe h = elim (kind t is) [
    | narrow w ↦
        let (n, lo, get, top) = narrow_reads t a w in
        omega (arith, get, top, compared_lem e fe lo, free_rest a fa n, free_rest e fe n)
    | little w b ↦
        let (n, lo, get, top) = little_reads t a w b in
        omega (arith, get, top, compared_lem e fe lo, free_rest a fa n, free_rest e fe n)
    | big w b ↦
        let (n, lo, get, top) = big_reads t a w b in
        omega (arith, get, top, compared_lem e fe lo, free_rest a fa n, free_rest e fe n)
  ]

  pub compared-whole :
      (a e : ℕ)
      → IsWhole t
      → IsFree t a
      → IsFree t e
      → get_i32_ref t (a + has_waiters t) ≡ compared t e
      → a ≡ e
  compared-whole a e whole fa fe h = elim whole [
    | inl w ↦
        let (n, lo, get, top) = narrow_reads t (a + has_waiters t) w in
        omega
          (arith, get, top, has_lem lo, compared_lem e fe lo, free_rest a fa n, free_rest e fe n)
    | inr (w, b) ↦
        let (n, lo, get, top) = big_reads t (a + has_waiters t) w b in
        omega
          (arith, get, top, has_lem lo, compared_lem e fe lo, free_rest a fa n, free_rest e fe n)
  ]

  pub compared-little :
      (a e : ℕ)
      → t.usize_bytes ≡ 8
      → t.big_endian ≡ false
      → IsFree t a
      → IsFree t e
      → get_i32_ref t (a + has_waiters t) ≡ compared t e
  compared-little a e w b fa fe =
      let (n, lo, get, top) = little_reads t (a + has_waiters t) w b in
      omega (arith, get, has_lem lo, compared_lem e fe lo, free_rest a fa n, free_rest e fe n)
