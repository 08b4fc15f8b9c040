-- ===== src/WindowsBackend.antt =====
-- src/windows.rs, the choice of the primitives on Windows: the probes for them, and `BackendStatic`,
-- which makes the choice once for all threads.
pub mod System
pub mod Safety
mod Examples
use valet_parking.Prelude.{ℕ, Bool, true, false, Option, none, some, ◌==◌, if◌then◌else◌}

-- The names that the probes ask for.
pub data Dll : Type 0 where
  synch kernel : Dll

pub data Proc : Type 0 where
  wait_on_address wake_by_address_all : Proc
  nt_create_keyed_event nt_wait_for_keyed_event nt_release_keyed_event : Proc

-- The functions of Windows, where 0 is the null pointer: `NtCreateKeyedEvent` gives its status, 0 for
-- success, and a handle.
pub record Api : Type 0 where
  pub get_module_handle : Dll → ℕ
  pub get_proc_address : ℕ → Proc → ℕ
  pub created_status : ℕ
  pub created_handle : ℕ

pub data Backend : Type 0 where
  unset : Backend
  wait : (wait_on_address wake_by_address_all : ℕ) → Backend
  keyed : (handle nt_release_keyed_event nt_wait_for_keyed_event : ℕ) → Backend

-- `GetProcAddress`, with an early return on a null pointer.
infixl 5 ◌>>=◌
abbrev ◌>>=◌ : ℕ → (ℕ → Option Backend) → Option Backend
p >>= rest = if p == 0 then none else rest p

-- With the feature `fallback` it finds nothing.
unfoldable pub probe_wait_address : (fallback : Bool) → Api → Option Backend
probe_wait_address true api = none
probe_wait_address false api = do
  dll ← api.get_module_handle synch
  wait_function ← api.get_proc_address dll wait_on_address
  wake_function ← api.get_proc_address dll wake_by_address_all
  some (wait wait_function wake_function)

unfoldable pub probe_keyed_event : Api → Option Backend
probe_keyed_event api = do
  dll ← api.get_module_handle kernel
  create_function ← api.get_proc_address dll nt_create_keyed_event
  wait_function ← api.get_proc_address dll nt_wait_for_keyed_event
  release_function ← api.get_proc_address dll nt_release_keyed_event
  (if api.created_status == 0
      then some (keyed api.created_handle release_function wait_function)
      else none)

-- The choice in `init`, where `none` is its panic.
unfoldable pub probe : (fallback : Bool) → Api → Option Backend
probe fallback api = elim (probe_wait_address fallback api) [
  | some found ↦ some found
  | none ↦ probe_keyed_event api
]

abbrev pub ready : ℕ
ready = 0

abbrev pub initializing : ℕ
initializing = 1

abbrev pub empty : ℕ
empty = 2

-- Where a thread stands in `get`.
pub data Pc : Type 0 where
  outside : Pc
  loading : Pc  -- before the `load` in `get`
  trying : Pc  -- before the `compare_and_swap`
  probing : Pc  -- before the probes
  setting : Backend → Pc  -- before `backend.set`
  publishing : Backend → Pc  -- before the `store`
  spinning : Pc  -- before the `load` of the loop
  reading : Pc  -- before `backend.get`
  returned : Backend → Pc
  panicked : Pc

pub record After : Type 0 where
  pub status : ℕ
  pub backend : Backend
  pub pc : Pc

-- The next access of a thread in `get` and `init`; `found` is what the probes find.
unfoldable pub get : (found : Option Backend) → (status : ℕ) → (backend : Backend) → Pc → After
get found status backend loading = record {
  status = status;
  backend = backend;
  pc = if status == ready then reading else trying;
}
get found status backend trying = record {
  status = if status == empty then initializing else status;
  backend = backend;
  pc = if status == empty then probing else if status == ready then reading else spinning;
}
get (some found) status backend probing = record {
  status = status;
  backend = backend;
  pc = setting found;
}
get none status backend probing = record { status = status; backend = backend; pc = panicked }
get found status backend (setting chosen) = record {
  status = status;
  backend = chosen;
  pc = publishing chosen;
}
get found status backend (publishing chosen) = record {
  status = ready;
  backend = backend;
  pc = returned chosen;
}
get found status backend spinning = record {
  status = status;
  backend = backend;
  pc = if status == ready then reading else spinning;
}
get found status backend reading = record {
  status = status;
  backend = backend;
  pc = returned backend;
}
get found status backend pc = record { status = status; backend = backend; pc = pc }
