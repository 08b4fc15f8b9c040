-- ===== src/WindowsBackend/System.antt =====
-- Any number of threads that ask for the primitives.
use valet_parking.Prelude.{ℕ, ◌≡◌, Option}
use valet_parking.Prelude.Family.{update}
use valet_parking.WindowsBackend.{Backend, unset, Pc, outside, loading, empty, get}

pub record System : Type 0 where
  pub status : ℕ
  pub backend : Backend
  pub pc : ℕ → Pc

-- `BackendStatic::new()`.
abbrev pub init : System
init = record { status = empty; backend = unset; pc = λ _. outside }

module _ (found : Option Backend) where
  abbrev pub gets : System → ℕ → System
  gets s i = record {
    status = (get found s.status s.backend (s.pc i)).status;
    backend = (get found s.status s.backend (s.pc i)).backend;
    pc = update s.pc i (get found s.status s.backend (s.pc i)).pc;
  }

  pub data Step (s : System) : System → Type 0 where
    call : (i : ℕ) → s.pc i ≡ outside → Step s (record s { pc = update s.pc i loading })
    getting : (i : ℕ) → Step s (gets s i)

  pub data Reach : System → Type 0 where
    start : Reach init
    later : {s u : System} → Reach s → Step s u → Reach u

  pub data Runs : System → System → Type 0 where
    done : (s : System) → Runs s s
    next : {s u v : System} → Step s u → Runs u v → Runs s v
