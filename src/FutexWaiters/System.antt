-- ===== src/FutexWaiters/System.antt =====
-- Any number of threads that wait on one atomic, and that store to it and wake the others.
use valet_parking.Prelude.{ℕ, ◌<◌, ◌≡◌}
use valet_parking.Prelude.Family.{update}
use valet_parking.Word.{Target, usize_mod}
use valet_parking.Reserved.{IsFree}
use valet_parking.FutexWaiters.{
  Pc, outside, marking, storing, waking, pub_bits, compare_and_wait, store_and_wake, woken,
  ends_early,
}

pub record System : Type 0 where
  pub atomic : ℕ
  pub pc : ℕ → Pc

abbrev pub init : ℕ → System
init a = record { atomic = a; pc = λ _. outside }

abbrev pub moves : System → ℕ → Pc → System
moves s i pc = record s { pc = update s.pc i pc }

abbrev pub wakes : System → ℕ → System
wakes s i = record s { pc = update (λ k. woken (s.pc k)) i outside }

module _ (t : Target) where
  abbrev pub compares : System → ℕ → System
  compares s i = record {
    atomic = (compare_and_wait t s.atomic (s.pc i)).atomic;
    pc = update s.pc i (compare_and_wait t s.atomic (s.pc i)).pc;
  }

  abbrev pub stores : System → ℕ → System
  stores s i = record {
    atomic = (store_and_wake t s.atomic (s.pc i)).atomic;
    pc = update s.pc i (store_and_wake t s.atomic (s.pc i)).pc;
  }

  pub data Step (s : System) : System → Type 0 where
    -- `Waiters::compare_and_wait` and `Waiters::store_and_wake`
    call_wait :
        (i expected : ℕ)
        → s.pc i ≡ outside
        → expected < usize_mod t
        → Step s (moves s i (marking (pub_bits t expected)))
    call_store : (i new : ℕ) → s.pc i ≡ outside → IsFree t new → Step s (moves s i (storing new))
    -- A caller may use the atomic itself: from a value with no reserved bit to another.
    exchanges :
        (i new : ℕ)
        → s.pc i ≡ outside
        → IsFree t s.atomic
        → IsFree t new
        → Step s (record s { atomic = new })
    comparing : (i : ℕ) → Step s (compares s i)
    early_end : (i : ℕ) → Step s (moves s i (ends_early (s.pc i)))
    swapping : (i : ℕ) → Step s (stores s i)
    waking_up : (i : ℕ) → s.pc i ≡ waking → Step s (wakes s i)

  pub data Reach : System → Type 0 where
    start : (a : ℕ) → IsFree t a → Reach (init a)
    later : {s u : System} → Reach s → Step s u → Reach u
