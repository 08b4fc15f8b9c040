-- ===== src/FutexWaiters/Steps.antt =====
-- Every step of the threads that wait over a futex keeps the invariant.
use valet_parking.Prelude.{
  ℕ, ◌≡◌, ◌≢◌, ◌⊎◌, inl, inr, bit_and, bit_or, Bool-cases, ◌==◌, arith, refl,
}
use valet_parking.Prelude.Family.{update, update_elim}
use valet_parking.Word.{Target, IsTarget}
use valet_parking.Reserved.{IsFree}
use valet_parking.FutexWaiters.{
  Pc, outside, marking, waiting, asleep, checking, storing, waking, has_waiters, pub_bits,
  get_i32_ref, compared, compare_and_wait, store_and_wake, woken, ends_early,
}
use valet_parking.FutexWaiters.System.{
  System, moves, wakes, compares, stores, Step, call_wait, call_store, exchanges, comparing,
  early_end, swapping, waking_up, Reach, start, later,
}
use valet_parking.FutexWaiters.Words.{
  flagged_lem, has_flagged, pub_bits-free, pub_bits-IsFree, compared-free,
}
use valet_parking.FutexWaiters.Invariant.{Frees, Inv, free_word, other_waking, moves-Inv, still-Inv}

woken-Frees : (t : Target) (pc : Pc) → Frees t pc → Frees t (woken pc)
unfolding woken
woken-Frees t (asleep e) free = free
woken-Frees t outside free = free
woken-Frees t (marking e) free = free
woken-Frees t (waiting e) free = free
woken-Frees t (checking e) free = free
woken-Frees t (storing new) free = free
woken-Frees t waking free = free

woken_awake : (pc : Pc) (e : ℕ) → woken pc ≢ asleep e
unfolding woken
woken_awake pc e x = ground arith

module _ (t : Target) (is : IsTarget t) where
  -- A thread sets `HAS_WAITERS`: nobody sleeps then.
  marks-Inv :
      {s : System} (i : ℕ)
      → s.pc i ≡ marking s.atomic
      → Inv t s
      → Inv t (record {
        atomic = bit_or s.atomic (has_waiters t);
        pc = update s.pc i (waiting s.atomic);
      })
  marks-Inv {s} i w inv = record {
    word = record { value = s.atomic; free = free; marked = inr (flagged_lem t is s.atomic free) };
    frees = λ k. update_elim (Frees t) s.pc i new k (λ same. free) (λ _. inv.frees k);
    slept = λ k e.
        update_elim
          (λ (pc : Pc).
            pc ≡ asleep e
            → (get_i32_ref t (bit_or s.atomic (has_waiters t)) ≡ compared t e)
              ⊎ ((j : ℕ) × (update s.pc i new j ≡ waking)))
          s.pc i new k (λ same x. absurd (ground arith))
          (λ _ x. elim (inv.slept k e x) [
            | inl same ↦ absurd (compared-free t is s.atomic e free (rw x at (inv.frees k)) same)
            | inr waker ↦ inr (other_waking s i new (λ y. ground (arith, y)) waker)
          ]);
  }
    where
      new : Pc
      new = waiting s.atomic

      free : IsFree t s.atomic
      free = rw w at (inv.frees i)

  -- The value is swapped: who sleeps is about to be woken.
  stores-Inv :
      {s : System} (i : ℕ) {new : ℕ} → s.pc i ≡ storing new → Inv t s → Inv t (stores t s i)
  unfolding store_and_wake
  stores-Inv {s} i {new} w inv =
      elim (Bool-cases (bit_and s.atomic (has_waiters t) == has_waiters t)) [
        | inl set ↦
            let a' : (store_and_wake t s.atomic (s.pc i)).atomic ≡ new = ground arith in
            let p' : (store_and_wake t s.atomic (s.pc i)).pc ≡ waking = ground arith in
            rw a' (rw p' (swapped waking tt (λ e x. ground arith) (λ k e x. inr (i, ground arith))))
        | inr clear ↦
            let a' : (store_and_wake t s.atomic (s.pc i)).atomic ≡ new = ground arith in
            let p' : (store_and_wake t s.atomic (s.pc i)).pc ≡ outside = ground arith in
            rw a' (
              rw p' (
                swapped outside tt (λ e x. ground arith)
                  (λ k e x. elim (inv.slept k e x) [
                    | inl same ↦ elim inv.word.marked [
                      | inl bare ↦ absurd (
                          compared-free t is inv.word.value e inv.word.free (rw x at (inv.frees k))
                            (rw bare at same))
                      | inr flagged ↦
                          absurd (ground (arith, has_flagged t is inv.word.value inv.word.free))
                    ]
                    | inr waker ↦ inr (other_waking s i outside (λ y. ground (arith, y)) waker)
                  ])))
      ]
    where
      swapped :
          (pc : Pc)
          → Frees t pc
          → ((e : ℕ) → pc ≢ asleep e)
          → ((k e : ℕ)
              → s.pc k ≡ asleep e
              → (get_i32_ref t new ≡ compared t e) ⊎ ((j : ℕ) × (update s.pc i pc j ≡ waking)))
          → Inv t (record { atomic = new; pc = update s.pc i pc })
      swapped pc free awake slept = record {
        word = free_word (rw w at (inv.frees i));
        frees = λ k. update_elim (Frees t) s.pc i pc k (λ same. free) (λ _. inv.frees k);
        slept = λ k e.
            update_elim
              (λ (q : Pc).
                q ≡ asleep e
                → (get_i32_ref t new ≡ compared t e) ⊎ ((j : ℕ) × (update s.pc i pc j ≡ waking)))
              s.pc i pc k (λ same x. absurd (awake e x)) (λ _ x. slept k e x);
      }

  accesses-Inv :
      (s : System) (i : ℕ) (new : Pc)
      → (compare_and_wait t s.atomic (s.pc i)).atomic ≡ s.atomic
      → (compare_and_wait t s.atomic (s.pc i)).pc ≡ new
      → Inv t (moves s i new)
      → Inv t (compares t s i)
  accesses-Inv s i new a p inv = rw a (rw p inv)

  comparing-Inv : {s : System} (i : ℕ) (pc : Pc) → s.pc i ≡ pc → Inv t s → Inv t (compares t s i)
  unfolding compare_and_wait
  comparing-Inv {s} i (marking e) w inv = elim (Bool-cases (s.atomic == e)) [
    | inl same ↦
        let same' : e ≡ s.atomic = ground arith in
        let free : IsFree t s.atomic = rw same' at (rw w at (inv.frees i)) in
        let a' : (compare_and_wait t s.atomic (s.pc i)).atomic ≡ bit_or s.atomic (has_waiters t) =
          rw (w, same') (ground arith) in
        let p' : (compare_and_wait t s.atomic (s.pc i)).pc ≡ waiting s.atomic =
          rw (w, same') (ground (arith, pub_bits-free t is s.atomic free)) in
        rw a' (rw p' (marks-Inv i (rw same' at w) inv))
    | inr other ↦ elim (Bool-cases (pub_bits t s.atomic == e)) [
      | inl bits ↦ accesses-Inv s i (waiting e) (ground arith) (ground arith) (
          moves-Inv i (waiting e) (λ x. ground (arith, x)) (rw w at (inv.frees i))
            (λ f x. absurd (ground arith)) inv)
      | inr bits ↦
          accesses-Inv s i outside (ground arith) (ground arith)
            (moves-Inv i outside (λ x. ground (arith, x)) tt (λ f x. absurd (ground arith)) inv)
    ]
  ]
  comparing-Inv {s} i (waiting e) w inv =
      elim (Bool-cases (get_i32_ref t s.atomic == compared t e)) [
        | inl same ↦ accesses-Inv s i (asleep e) (ground arith) (ground arith) (
            moves-Inv i (asleep e) (λ x. ground (arith, x)) (rw w at (inv.frees i))
              (λ f x. ground arith) inv)
        | inr other ↦ accesses-Inv s i (checking e) (ground arith) (ground arith) (
            moves-Inv i (checking e) (λ x. ground (arith, x)) (rw w at (inv.frees i))
              (λ f x. absurd (ground arith)) inv)
      ]
  comparing-Inv {s} i (checking e) w inv =
      elim (Bool-cases (s.atomic == bit_or e (has_waiters t))) [
        | inl same ↦ accesses-Inv s i (waiting e) (ground arith) (ground arith) (
            moves-Inv i (waiting e) (λ x. ground (arith, x)) (rw w at (inv.frees i))
              (λ f x. absurd (ground arith)) inv)
        | inr other ↦
            accesses-Inv s i outside (ground arith) (ground arith)
              (moves-Inv i outside (λ x. ground (arith, x)) tt (λ f x. absurd (ground arith)) inv)
      ]
  comparing-Inv {s} i pc w inv =
      let a' : (compare_and_wait t s.atomic (s.pc i)).atomic ≡ s.atomic = rw w (ground arith) in
      let p' : (compare_and_wait t s.atomic (s.pc i)).pc ≡ s.pc i = rw w (ground arith) in
      rw a' (rw p' (still-Inv i inv))

  swapping-Inv : {s : System} (i : ℕ) (pc : Pc) → s.pc i ≡ pc → Inv t s → Inv t (stores t s i)
  unfolding store_and_wake
  swapping-Inv i (storing new) w inv = stores-Inv i w inv
  swapping-Inv {s} i pc w inv =
      let a' : (store_and_wake t s.atomic (s.pc i)).atomic ≡ s.atomic = rw w (ground arith) in
      let p' : (store_and_wake t s.atomic (s.pc i)).pc ≡ s.pc i = rw w (ground arith) in
      rw a' (rw p' (still-Inv i inv))

  early-Inv :
      {s : System} (i : ℕ) (pc : Pc)
      → s.pc i ≡ pc
      → Inv t s
      → Inv t (moves s i (ends_early (s.pc i)))
  unfolding ends_early
  early-Inv i (asleep e) w inv = rw w (
      moves-Inv i (checking e) (λ x. ground (arith, x)) (rw w at (inv.frees i))
        (λ f x. absurd (ground arith)) inv)
  early-Inv i (waiting e) w inv = rw w (
      moves-Inv i (checking e) (λ x. ground (arith, x)) (rw w at (inv.frees i))
        (λ f x. absurd (ground arith)) inv)
  early-Inv {s} i pc w inv =
      let p' : ends_early (s.pc i) ≡ s.pc i = rw w (ground arith) in rw p' (still-Inv i inv)

  wakes-Inv : {s : System} (i : ℕ) → Inv t s → Inv t (wakes s i)
  unfolding woken
  wakes-Inv {s} i inv = record {
    word = inv.word;
    frees = λ k.
        update_elim (Frees t) (λ (j : ℕ). woken (s.pc j)) i outside k (λ same. tt)
          (λ _. woken-Frees t (s.pc k) (inv.frees k));
    slept = λ k e.
        update_elim
          (λ (pc : Pc).
            pc ≡ asleep e
            → (get_i32_ref t s.atomic ≡ compared t e) ⊎ ((j : ℕ) × ((wakes s i).pc j ≡ waking)))
          (λ (j : ℕ). woken (s.pc j)) i outside k (λ same x. absurd (ground arith))
          (λ _ x. absurd (woken_awake (s.pc k) e x));
  }

  exchanges-Inv :
      {s : System} (new : ℕ)
      → IsFree t s.atomic
      → IsFree t new
      → Inv t s
      → Inv t (record { atomic = new; pc = s.pc })
  exchanges-Inv {s} new old free inv = record {
    word = free_word free;
    frees = inv.frees;
    slept = λ i e x. elim (inv.slept i e x) [
      | inl same ↦ absurd (compared-free t is s.atomic e old (rw x at (inv.frees i)) same)
      | inr waker ↦ inr waker
    ];
  }

  pub Step-Inv : {s u : System} → Step t s u → Inv t s → Inv t u
  Step-Inv {s} (call_wait i e w fits) inv =
      moves-Inv i _ (λ x. ground (arith, x)) (pub_bits-IsFree t is e fits)
        (λ f x. absurd (ground arith)) inv
  Step-Inv (call_store i new w free) inv =
      moves-Inv i _ (λ x. ground (arith, x)) free (λ f x. absurd (ground arith)) inv
  Step-Inv (exchanges i new w old free) inv = exchanges-Inv new old free inv
  Step-Inv {s} (comparing i) inv = comparing-Inv i (s.pc i) refl inv
  Step-Inv {s} (early_end i) inv = early-Inv i (s.pc i) refl inv
  Step-Inv {s} (swapping i) inv = swapping-Inv i (s.pc i) refl inv
  Step-Inv (waking_up i w) inv = wakes-Inv i inv

  pub Reach-Inv : {s : System} → Reach t s → Inv t s
  Reach-Inv (start a free) = record {
    word = free_word free;
    frees = λ i. tt;
    slept = λ i e x. absurd (ground arith);
  }
  Reach-Inv (later r step) = Step-Inv step (Reach-Inv r)
