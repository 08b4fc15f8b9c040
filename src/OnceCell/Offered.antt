-- ===== src/OnceCell/Offered.antt =====
-- The value of a cell is one that a call of `get_or_init` was given.
use valet_parking.Prelude.{
  ℕ, ◌≡◌, ◌⊎◌, true, false, ◌==◌, Option, none, some, refl, arith, inl, inr, sym, ◌∙◌, Bool-cases,
}
use valet_parking.Prelude.Family.{update, update_elim}
use valet_parking.Word.{Target}
use valet_parking.OnceCell.{
  Pc, getting, reading, loading, matching, writing, waking, storing, asserting, sleeping, waiting,
  reloading, unwrapping, unwrapping_cell, panicked, incomplete, running, complete, pub_bits,
  declines, After, access, read,
}
use valet_parking.OnceCell.System.{
  System, Step, call, accessing, reading_cell, writing_cell, storing_calls, waiting_calls, inside,
  storing_returns, waiting_returns, Reach, start, later,
}

-- The value that a call of `get_or_init` carries.
abbrev pub carried {ℓ} : {A : Type ℓ} → Pc A → Option A
carried (getting init) = init
carried (reading init) = init
carried (loading v) = some v
carried (matching v a) = some v
carried (writing v) = some v
carried (sleeping v) = some v
carried (waiting v) = some v
carried (reloading v) = some v
carried pc = none

module _ {ℓ} {A : Type ℓ} (t : Target) where
  -- The value that a step gives to a call of `get_or_init`.
  abbrev pub offer : {s u : System A} → Step t s u → Option A
  offer (call i init rest) = init
  offer step = none

  -- Some step of the run gave this value.
  abbrev pub Offered : {s : System A} → Reach t s → A → Type ℓ
  Offered start v = none ≡ some v
  Offered (later r step) v = (offer step ≡ some v) ⊎ Offered r v

  -- A thread carries on what it carried, or nothing.
  abbrev CarriesOn : Pc A → Pc A → Type ℓ
  CarriesOn pc next = (carried next ≡ none) ⊎ (carried next ≡ carried pc)

  lands :
      (word : ℕ) (pc : Pc A) (after : After A)
      → access t word pc ≡ after
      → CarriesOn pc after.pc
      → CarriesOn pc (access t word pc).pc
  lands word pc after e on = rw e on

  declines-CarriesOn : (init : Option A) → carried (declines init) ≡ init
  declines-CarriesOn none = refl
  declines-CarriesOn (some v) = refl

  access-CarriesOn : (word : ℕ) (pc : Pc A) → CarriesOn pc (access t word pc).pc
  unfolding access
  access-CarriesOn word (getting init) = elim (Bool-cases (word == complete t)) [
    | inl done ↦
        lands word (getting init) (record { exchanges = false; pc = reading init }) (ground arith)
          (inr refl)
    | inr other ↦
        lands word (getting init) (record { exchanges = false; pc = declines init }) (ground arith)
          (inr (declines-CarriesOn init))
  ]
  access-CarriesOn word (loading v) = inr refl
  access-CarriesOn word (matching v a) = elim (Bool-cases (a == complete t)) [
    | inl done ↦
        lands word (matching v a) (record { exchanges = false; pc = unwrapping }) (ground arith)
          (inl refl)
    | inr more ↦ elim (Bool-cases (a == incomplete t)) [
      | inl zero ↦ elim (Bool-cases (word == a)) [
        | inl same ↦
            lands word (matching v a) (record { exchanges = true; pc = writing v }) (ground arith)
              (inr refl)
        | inr changed ↦
            lands word (matching v a) (record { exchanges = false; pc = matching v word })
              (ground arith) (inr refl)
      ]
      | inr begun ↦ elim (Bool-cases (pub_bits t a == running t)) [
        | inl bits ↦
            lands word (matching v a) (record { exchanges = false; pc = sleeping v }) (ground arith)
              (inr refl)
        | inr broken ↦
            lands word (matching v a) (record { exchanges = false; pc = panicked }) (ground arith)
              (inl refl)
      ]
    ]
  ]
  access-CarriesOn word asserting = elim (Bool-cases (pub_bits t word == complete t)) [
    | inl done ↦
        lands word asserting (record { exchanges = false; pc = unwrapping }) (ground arith)
          (inl refl)
    | inr broken ↦
        lands word asserting (record { exchanges = false; pc = panicked }) (ground arith) (inl refl)
  ]
  access-CarriesOn word (reloading v) = inr refl
  access-CarriesOn word unwrapping = elim (Bool-cases (word == complete t)) [
    | inl done ↦
        lands word unwrapping (record { exchanges = false; pc = unwrapping_cell }) (ground arith)
          (inl refl)
    | inr broken ↦
        lands word unwrapping (record { exchanges = false; pc = panicked }) (ground arith)
          (inl refl)
  ]
  access-CarriesOn word pc = inr refl

  read-CarriesOn : (c : Option A) (pc : Pc A) → CarriesOn pc (read c pc)
  unfolding read
  read-CarriesOn (some w) (reading init) = inl refl
  read-CarriesOn none (reading init) = inr (declines-CarriesOn init)
  read-CarriesOn (some w) unwrapping_cell = inl refl
  read-CarriesOn none unwrapping_cell = inl refl
  read-CarriesOn (some w) pc = inr refl
  read-CarriesOn none pc = inr refl

  carries_on :
      {s : System A} (r : Reach t s) (i : ℕ) (next : Pc A) (k : ℕ) {v : A}
      → CarriesOn (s.pc i) next
      → ((j : ℕ) → carried (s.pc j) ≡ some v → Offered r v)
      → carried (update s.pc i next k) ≡ some v
      → Offered r v
  carries_on {s} r i next k {v} on before =
      update_elim (λ x. carried x ≡ some v → Offered r v) s.pc i next k
        (λ same e. elim on [ inl nothing ↦ absurd (cc) | inr kept ↦ before i (sym kept ∙ e) ])
        (λ other e. before k e)

  carried-Offered :
      {s : System A} (k : ℕ) {v : A} → (r : Reach t s) → carried (s.pc k) ≡ some v → Offered r v
  carried-Offered k start e = absurd (cc)
  carried-Offered k {v} (later {s} r (call i init rest)) e =
      update_elim (λ x. carried x ≡ some v → (init ≡ some v) ⊎ Offered r v) s.pc i (getting init) k
        (λ same is. inl is) (λ other is. inr (carried-Offered k r is)) e
  carried-Offered k (later {s} r (accessing i word reads)) e = inr (
      carries_on r i (access t word (s.pc i)).pc k (access-CarriesOn word (s.pc i))
        (λ j is. carried-Offered j r is) e)
  carried-Offered k (later {s} r (reading_cell i)) e = inr (
      carries_on r i (read s.value (s.pc i)) k (read-CarriesOn s.value (s.pc i))
        (λ j is. carried-Offered j r is) e)
  carried-Offered k (later {s} r (writing_cell i w)) e =
      inr (carries_on r i waking k (inl refl) (λ j is. carried-Offered j r is) e)
  carried-Offered k (later {s} r (storing_calls i w step)) e =
      inr (carries_on r i storing k (inl refl) (λ j is. carried-Offered j r is) e)
  carried-Offered k (later {s} r (waiting_calls i {value} w step)) e =
      inr (carries_on r i (waiting value) k (inr (rw w refl)) (λ j is. carried-Offered j r is) e)
  carried-Offered k (later {s} r (storing_returns i w step)) e =
      inr (carries_on r i asserting k (inl refl) (λ j is. carried-Offered j r is) e)
  carried-Offered k (later {s} r (waiting_returns i {value} w step)) e =
      inr (carries_on r i (reloading value) k (inr (rw w refl)) (λ j is. carried-Offered j r is) e)
  carried-Offered k (later r (inside step)) e = inr (carried-Offered k r e)

  pub value-Offered : {s : System A} {v : A} (r : Reach t s) → s.value ≡ some v → Offered r v
  value-Offered start e = absurd (cc)
  value-Offered (later r (call i init rest)) e = inr (value-Offered r e)
  value-Offered (later r (accessing i word reads)) e = inr (value-Offered r e)
  value-Offered (later r (reading_cell i)) e = inr (value-Offered r e)
  value-Offered {v} (later {s} r (writing_cell i w)) e = inr (carried-Offered i r (rw w e))
  value-Offered (later r (storing_calls i w step)) e = inr (value-Offered r e)
  value-Offered (later r (waiting_calls i w step)) e = inr (value-Offered r e)
  value-Offered (later r (inside step)) e = inr (value-Offered r e)
  value-Offered (later r (storing_returns i w step)) e = inr (value-Offered r e)
  value-Offered (later r (waiting_returns i w step)) e = inr (value-Offered r e)
