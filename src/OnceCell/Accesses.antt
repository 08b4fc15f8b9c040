-- ===== src/OnceCell/Accesses.antt =====
-- One access of the atomic or of the cell leaves the thread where it can be.
use valet_parking.Prelude.{
  ℕ, ◌≤◌, ◌≡◌, true, false, ◌==◌, Option, none, some, refl, arith, inl, inr, Bool-cases,
}
use valet_parking.Word.{Target}
use valet_parking.Contract as Waiters
use valet_parking.Contract.{signal}
use valet_parking.OnceCell.{
  Pc, getting, reading, loading, matching, writing, asserting, sleeping, reloading, unwrapping,
  unwrapping_cell, incomplete, running, complete, pub_bits, declines, After, access, read,
}
use valet_parking.OnceCell.Invariant.{Phase, ready, IsSome, Seen, At}
use valet_parking.OnceCell.Words.{Found, running_apart, running-pos, pub_bits-complete}

Found-Seen : (t : Target) (p : Phase) (word : ℕ) → Found t p word → Seen t p word
Found-Seen t p word (inl (same, at_start)) = inl same
Found-Seen t p word (inr (inl (bits, i, owner))) = inr (inl bits)
Found-Seen t p word (inr (inr done)) = inr (inr done)

pub Seen-later :
    (t : Target) (p r : Phase) (a : ℕ) → (p ≡ ready → r ≡ ready) → Seen t p a → Seen t r a
Seen-later t p r a keep (inl start) = inl start
Seen-later t p r a keep (inr (inl bits)) = inr (inl bits)
Seen-later t p r a keep (inr (inr (same, is))) = inr (inr (same, keep is))

module _ {ℓ} {A : Type ℓ} (t : Target) (size : 1 ≤ t.usize_bytes) where
  declines-At :
      (c : Option A) (p : Phase) (k : ℕ) (init : Option A) (q : Waiters.Pc)
      → q ≡ Waiters.idle
      → At t c p k (declines init) q
  declines-At c p k none q e = (e, _)
  declines-At c p k (some v) q e = (e, _)

  module _ (c : Option A) (p : Phase) (k word : ℕ) (q : Waiters.Pc) (found : Found t p word) where
    -- The word is that of a cell that is ready.
    complete-ready : word ≡ complete t → p ≡ ready
    complete-ready same = elim found [
      | inl (start, _) ↦ absurd (omega (arith, running-pos t size))
      | inr (inl (bits, i, owner)) ↦ absurd (running_apart t size word bits same)
      | inr (inr (_, is)) ↦ is
    ]

    ready-complete : p ≡ ready → word ≡ complete t
    ready-complete is = elim found [
      | inl (start, at_start) ↦ cc
      | inr (inl (bits, i, owner)) ↦ cc
      | inr (inr (same, _)) ↦ same
    ]

    -- Where the access left thread `k`, if it wrote nothing.
    abbrev Keeps : Pc A → Type ℓ
    Keeps pc = (access t word pc).exchanges ≡ false → At t c p k (access t word pc).pc q

    lands :
        (pc : Pc A) (after : After A) → access t word pc ≡ after → At t c p k after.pc q → Keeps pc
    lands pc after e at _ = rw e at

    matching-At : (v : A) (a : ℕ) → q ≡ Waiters.idle → Seen t p a → Keeps (matching v a)
    unfolding access
    matching-At v a e seen none_made = elim (Bool-cases (a == complete t)) [
      | inl done ↦
          let is : p ≡ ready = elim seen [
            | inl start ↦ absurd (ground (arith, running-pos t size))
            | inr (inl bits) ↦ absurd (ground (arith, pub_bits-complete t size, running-pos t size))
            | inr (inr (_, is)) ↦ is
          ] in
          lands (matching v a) (record { exchanges = false; pc = unwrapping }) (ground arith)
            (e, is, _) none_made
      | inr other ↦ elim (Bool-cases (a == incomplete t)) [
        | inl start ↦ elim (Bool-cases (word == a)) [
          | inl same ↦ absurd (ground arith)
          | inr changed ↦
              lands (matching v a) (record { exchanges = false; pc = matching v word })
                (ground arith) (e, Found-Seen t p word found, _) none_made
        ]
        | inr begun ↦
            let bits : pub_bits t a ≡ running t = elim seen [
              | inl start ↦ absurd (ground arith)
              | inr (inl bits) ↦ bits
              | inr (inr (done, _)) ↦ absurd (ground arith)
            ] in
            lands (matching v a) (record { exchanges = false; pc = sleeping v }) (ground arith)
              (e, _) none_made
      ]
    ]

    pub access-At : (pc : Pc A) → At t c p k pc q → Keeps pc
    unfolding access
    access-At (getting init) (e, _) none_made = elim (Bool-cases (word == complete t)) [
      | inl done ↦
          lands (getting init) (record { exchanges = false; pc = reading init }) (ground arith)
            (e, complete-ready (ground arith), _) none_made
      | inr other ↦
          lands (getting init) (record { exchanges = false; pc = declines init }) (ground arith)
            (declines-At c p k init q e) none_made
    ]
    access-At (loading v) (e, _) none_made = (e, Found-Seen t p word found, _)
    access-At (matching v a) (e, seen, _) none_made = matching-At v a e seen none_made
    access-At asserting (e, is, _) none_made =
        let same : word ≡ complete t = ready-complete is in
        lands asserting (record { exchanges = false; pc = unwrapping })
          (ground (arith, pub_bits-complete t size)) (e, is, _) none_made
    access-At (reloading v) (e, _) none_made = (e, Found-Seen t p word found, _)
    access-At unwrapping (e, is, _) none_made =
        let same : word ≡ complete t = ready-complete is in
        lands unwrapping (record { exchanges = false; pc = unwrapping_cell }) (ground arith)
          (e, is, _) none_made
    access-At pc at none_made = at

  -- Only the loop of `init` exchanges, and only on a fresh cell.
  pub exchanging :
      (c : Option A) (p : Phase) (k word : ℕ) (q : Waiters.Pc) (pc : Pc A)
      → At t c p k pc q
      → (access t word pc).exchanges ≡ true
      → (word ≡ incomplete t) × (q ≡ Waiters.idle) × (v : A) × ((access t word pc).pc ≡ writing v)
  unfolding access
  exchanging c p k word q (matching v a) (e, seen, _) made = elim (Bool-cases (a == complete t)) [
    | inl done ↦ absurd (ground arith)
    | inr more ↦ elim (Bool-cases (a == incomplete t)) [
      | inl start ↦ elim (Bool-cases (word == a)) [
        | inl same ↦ (ground arith, e, v, ground arith)
        | inr changed ↦ absurd (ground arith)
      ]
      | inr begun ↦ absurd (ground arith)
    ]
  ]
  exchanging c p k word q pc at made = cc

  -- The read of the cell.
  pub read-At :
      (c : Option A) (p : Phase) (k : ℕ) (pc : Pc A) (q : Waiters.Pc)
      → (p ≡ ready → IsSome c)
      → At t c p k pc q
      → At t c p k (read c pc) q
  unfolding read
  read-At (some v) p k (reading init) q filled (e, is, _) = (e, is, refl)
  read-At none p k (reading init) q filled (e, is, _) = absurd (filled is)
  read-At (some v) p k unwrapping_cell q filled (e, is, _) = (e, is, refl)
  read-At none p k unwrapping_cell q filled (e, is, _) = absurd (filled is)
  read-At c p k pc q filled at = at
