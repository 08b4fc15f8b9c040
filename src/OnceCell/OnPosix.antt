-- ===== src/OnceCell/OnPosix.antt =====
-- The cell on the Waiters of src/posix.rs and src/waiter_queue.rs: its accesses of the atomic read the
-- word that is there, and its calls are those of PosixWaiters.
use valet_parking.Prelude.{ℕ, ◌≡◌, Bool, true, false, Option, none, some}
use valet_parking.Prelude.Family.{update}
use valet_parking.Word.{Target}
use valet_parking.Contract as Waiters
use valet_parking.PosixParker.System.{IsAddress}
use valet_parking.PosixWaiters.System as Posix
use valet_parking.PosixWaiters.Refinement.{seen}
use valet_parking.OnceCell.{
  Pc, outside, getting, writing, waking, storing, asserting, sleeping, waiting, reloading, access,
  read, incomplete, running, complete,
}
use valet_parking.OnceCell.System.{IsAtRest}

pub record System {ℓ} (A : Type ℓ) : Type ℓ where
  pub waiters : Posix.System
  pub value : Option A
  pub pc : ℕ → Pc A

abbrev pub exchanged_if : Target → Bool → Posix.System → Posix.System
exchanged_if t true w = record w { queue = record w.queue { atomic = running t } }
exchanged_if t false w = w

module _ {ℓ} {A : Type ℓ} (t : Target) (debug : Bool) where
  abbrev pub new : (addr : ℕ) → System A
  new addr = record { waiters = Posix.init (incomplete t) addr; value = none; pc = λ _. outside }

  abbrev pub accesses : System A → ℕ → System A
  accesses s i = record s {
    waiters = exchanged_if t (access t s.waiters.queue.atomic (s.pc i)).exchanges s.waiters;
    pc = update s.pc i (access t s.waiters.queue.atomic (s.pc i)).pc;
  }

  pub data Step (s : System A) : System A → Type ℓ where
    call :
        (i : ℕ) (init : Option A)
        → IsAtRest t (s.pc i)
        → Step s (record s { pc = update s.pc i (getting init) })
    accessing : (i : ℕ) → Step s (accesses s i)
    reading_cell : (i : ℕ) → Step s (record s { pc = update s.pc i (read s.value (s.pc i)) })
    writing_cell :
        (i : ℕ) {value : A}
        → s.pc i ≡ writing value
        → Step s (record s { value = some value; pc = update s.pc i waking })
    storing_calls :
        (i : ℕ) {w : Posix.System} (step : Posix.Step t debug s.waiters w)
        → s.pc i ≡ waking
        → seen t debug step ≡ some (Waiters.stores i (complete t))
        → Step s (record s { waiters = w; pc = update s.pc i storing })
    waiting_calls :
        (i : ℕ) {value : A} {w : Posix.System} (step : Posix.Step t debug s.waiters w)
        → s.pc i ≡ sleeping value
        → seen t debug step ≡ some (Waiters.waits i (running t))
        → Step s (record s { waiters = w; pc = update s.pc i (waiting value) })
    inside :
        {w : Posix.System} (step : Posix.Step t debug s.waiters w)
        → seen t debug step ≡ none
        → Step s (record s { waiters = w })
    storing_returns :
        (i : ℕ) {w : Posix.System} (step : Posix.Step t debug s.waiters w)
        → s.pc i ≡ storing
        → seen t debug step ≡ some (Waiters.returns i)
        → Step s (record s { waiters = w; pc = update s.pc i asserting })
    waiting_returns :
        (i : ℕ) {value : A} {w : Posix.System} (step : Posix.Step t debug s.waiters w)
        → s.pc i ≡ waiting value
        → seen t debug step ≡ some (Waiters.returns i)
        → Step s (record s { waiters = w; pc = update s.pc i (reloading value) })

  pub data Reach : System A → Type ℓ where
    start : (addr : ℕ) → IsAddress t addr → Reach (new addr)
    later : {s u : System A} → Reach s → Step s u → Reach u
