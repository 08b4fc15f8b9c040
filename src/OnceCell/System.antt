-- ===== src/OnceCell/System.antt =====
-- Any number of threads that ask for the value of one cell, over the contract of `Waiters`.
use valet_parking.Prelude.{ℕ, ◌≡◌, Option, none, some, Bool, true, false}
use valet_parking.Prelude.Family.{update}
use valet_parking.Word.{Target}
use valet_parking.Contract as Waiters
use valet_parking.Contract.Agreement.{Reads}
use valet_parking.OnceCell.{
  Pc, outside, getting, writing, waking, storing, asserting, sleeping, waiting, reloading, returned,
  access, read, incomplete, running, complete,
}

pub record System {ℓ} (A : Type ℓ) : Type ℓ where
  pub waiters : Waiters.System
  pub value : Option A
  pub pc : ℕ → Pc A

abbrev pub exchanged_if : Target → Bool → Waiters.System → Waiters.System
exchanged_if t true w = Waiters.exchanged w (running t)
exchanged_if t false w = w

module _ {ℓ} {A : Type ℓ} (t : Target) where
  -- `OnceCell::new()`.
  abbrev pub new : System A
  new = record { waiters = Waiters.init (incomplete t); value = none; pc = λ _. outside }

  -- The access of thread `i`, where the atomic reads `word`.
  abbrev pub accesses : System A → ℕ → (word : ℕ) → System A
  accesses s i word = record s {
    waiters = exchanged_if t (access t word (s.pc i)).exchanges s.waiters;
    pc = update s.pc i (access t word (s.pc i)).pc;
  }

  abbrev pub IsAtRest : Pc A → Type 0
  IsAtRest outside = Unit {0}
  IsAtRest (returned result) = Unit {0}
  IsAtRest pc = ⊥

  pub data Step (s : System A) : System A → Type ℓ where
    -- `get`, or `get_or_init` with a value
    call :
        (i : ℕ) (init : Option A)
        → IsAtRest (s.pc i)
        → Step s (record s { pc = update s.pc i (getting init) })
    accessing : (i word : ℕ) → Reads t s.waiters word → Step s (accesses s i word)
    reading_cell : (i : ℕ) → Step s (record s { pc = update s.pc i (read s.value (s.pc i)) })
    writing_cell :
        (i : ℕ) {value : A}
        → s.pc i ≡ writing value
        → Step s (record s { value = some value; pc = update s.pc i waking })
    -- the calls of `Waiters`, their steps, and their returns
    storing_calls :
        (i : ℕ) {w : Waiters.System}
        → s.pc i ≡ waking
        → Waiters.Step s.waiters (some (Waiters.stores i (complete t))) w
        → Step s (record s { waiters = w; pc = update s.pc i storing })
    waiting_calls :
        (i : ℕ) {value : A} {w : Waiters.System}
        → s.pc i ≡ sleeping value
        → Waiters.Step s.waiters (some (Waiters.waits i (running t))) w
        → Step s (record s { waiters = w; pc = update s.pc i (waiting value) })
    inside :
        {w : Waiters.System} → Waiters.Step s.waiters none w → Step s (record s { waiters = w })
    storing_returns :
        (i : ℕ) {w : Waiters.System}
        → s.pc i ≡ storing
        → Waiters.Step s.waiters (some (Waiters.returns i)) w
        → Step s (record s { waiters = w; pc = update s.pc i asserting })
    waiting_returns :
        (i : ℕ) {value : A} {w : Waiters.System}
        → s.pc i ≡ waiting value
        → Waiters.Step s.waiters (some (Waiters.returns i)) w
        → Step s (record s { waiters = w; pc = update s.pc i (reloading value) })

  pub data Reach : System A → Type ℓ where
    start : Reach new
    later : {s u : System A} → Reach s → Step s u → Reach u
