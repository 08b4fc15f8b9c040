-- ===== src/FutexWaiters/Invariant.antt =====
-- What holds in every reachable state of the threads that wait over a futex.
use valet_parking.Prelude.{ℕ, ◌+◌, ◌≡◌, ◌≢◌, ◌⊎◌, inl, inr, arith, refl}
use valet_parking.Prelude.Family.{update, update_elim, update_same}
use valet_parking.Word.{Target}
use valet_parking.Reserved.{IsFree}
use valet_parking.FutexWaiters.{
  Pc, marking, waiting, asleep, checking, storing, waking, has_waiters, get_i32_ref, compared,
}
use valet_parking.FutexWaiters.System.{System, moves}

-- The value that a thread has been given.
abbrev pub Frees : Target → Pc → Type 0
Frees t (marking e) = IsFree t e
Frees t (waiting e) = IsFree t e
Frees t (asleep e) = IsFree t e
Frees t (checking e) = IsFree t e
Frees t (storing new) = IsFree t new
Frees t pc = Unit

-- Public bits, and at most `HAS_WAITERS` beside them.
pub record IsMarked (t : Target) (a : ℕ) : Type 0 where
  pub value : ℕ
  pub free : IsFree t value
  pub marked : (a ≡ value) ⊎ (a ≡ value + has_waiters t)

pub record Inv (t : Target) (s : System) : Type 0 where
  pub word : IsMarked t s.atomic
  pub frees : (i : ℕ) → Frees t (s.pc i)
  -- A thread sleeps while the 32 bits are as it expects them, or while it is about to be woken.
  pub slept :
      (i e : ℕ)
      → s.pc i ≡ asleep e
      → (get_i32_ref t s.atomic ≡ compared t e) ⊎ ((j : ℕ) × (s.pc j ≡ waking))

pub free_word : {t : Target} {a : ℕ} → IsFree t a → IsMarked t a
free_word free = record { value = _; free = free; marked = inl refl }

-- Another thread that is about to call `wake` still is.
pub other_waking :
    (s : System) (i : ℕ) (new : Pc)
    → s.pc i ≢ waking
    → (j : ℕ) × (s.pc j ≡ waking)
    → (j : ℕ) × (update s.pc i new j ≡ waking)
other_waking s i new still (j, w) = (j, ground arith)

-- A thread moves that does not leave `wake`, and the atomic stays.
pub moves-Inv :
    {t : Target} {s : System} (i : ℕ) (new : Pc)
    → s.pc i ≢ waking
    → Frees t new
    → ((e : ℕ) → new ≡ asleep e → get_i32_ref t s.atomic ≡ compared t e)
    → Inv t s
    → Inv t (moves s i new)
moves-Inv {t} {s} i new still free agrees inv = record {
  word = inv.word;
  frees = λ k. update_elim (Frees t) s.pc i new k (λ same. free) (λ _. inv.frees k);
  slept = λ k e.
      update_elim
        (λ (pc : Pc).
          pc ≡ asleep e
          → (get_i32_ref t s.atomic ≡ compared t e) ⊎ ((j : ℕ) × (update s.pc i new j ≡ waking)))
        s.pc i new k (λ same x. inl (agrees e x))
        (λ _ x. elim (inv.slept k e x) [
          | inl same ↦ inl same
          | inr waker ↦ inr (other_waking s i new still waker)
        ]);
}

pub still-Inv :
    {t : Target} {s : System} (i : ℕ)
    → Inv t s
    → Inv t (record { atomic = s.atomic; pc = update s.pc i (s.pc i) })
still-Inv {s = s} i inv = rw (update_same s.pc i) inv
