-- ===== src/Contract.antt =====
-- The contract of `Waiters`, as the documentation of the trait in src/lib.rs gives it: what a thread
-- that calls `compare_and_wait` and `store_and_wake` may see, whatever the implementation.
pub mod Agreement
pub mod Calls
pub mod Parker
use valet_parking.Prelude.{ℕ, Bool, true, false, List, [], ◌∷◌, Option, none, some, ◌≡◌, ◌≢◌, ◌⊎◌}
use valet_parking.Prelude.Family.{update}

-- Where a thread stands. `signalled` says whether the atomic was written since the call.
pub data Pc : Type 0 where
  idle : Pc
  waiting : (expected : ℕ) (signalled : Bool) → Pc
  storing : (new : ℕ) → Pc
  leaving : Pc

pub data Event : Type 0 where
  waits : (thread expected : ℕ) → Event
  stores : (thread new : ℕ) → Event
  exchanges : (thread new : ℕ) → Event
  returns : (thread : ℕ) → Event

-- The value of the atomic without its reserved bits, and whether a reserved bit may be set.
pub record System : Type 0 where
  pub value : ℕ
  pub marked : Bool
  pub pc : ℕ → Pc

abbrev pub init : ℕ → System
init v = record { value = v; marked = false; pc = λ _. idle }

abbrev pub moves : System → ℕ → Pc → System
moves s i pc = record s { pc = update s.pc i pc }

-- To write the atomic signals every thread that waits.
abbrev pub signal : Pc → Pc
signal (waiting expected signalled) = waiting expected true
signal pc = pc

abbrev pub stored : System → ℕ → ℕ → System
stored s i new = record {
  value = new;
  marked = false;
  pc = update (λ k. signal (s.pc k)) i leaving;
}

-- A caller writes the atomic itself, with no reserved bit.
abbrev pub exchanged : System → ℕ → System
exchanged s new = record { value = new; marked = false; pc = λ k. signal (s.pc k) }

-- A step, with what a caller sees of it.
pub data Step (s : System) : Option Event → System → Type 0 where
  call_wait : (i e : ℕ) → s.pc i ≡ idle → Step s (some (waits i e)) (moves s i (waiting e false))
  call_store : (i new : ℕ) → s.pc i ≡ idle → Step s (some (stores i new)) (moves s i (storing new))
  store : (i new : ℕ) → s.pc i ≡ storing new → Step s none (stored s i new)
  -- An access of the atomic that a caller makes itself.
  exchange : (i new : ℕ) → s.pc i ≡ idle → Step s (some (exchanges i new)) (exchanged s new)
  -- Reserved bits are set only in a wait for the value that there is.
  mark :
      (i : ℕ) {e : ℕ} {signalled : Bool}
      → s.pc i ≡ waiting e signalled
      → s.value ≡ e
      → Step s none (record s { marked = true })
  -- A wait ends only if the value was another one, or the atomic was written, during the call.
  leave :
      (i : ℕ) {e : ℕ} {signalled : Bool}
      → s.pc i ≡ waiting e signalled
      → (signalled ≡ true) ⊎ (s.value ≢ e)
      → Step s none (moves s i leaving)
  return : (i : ℕ) → s.pc i ≡ leaving → Step s (some (returns i)) (moves s i idle)

-- The trace so far, the last event first.
abbrev pub follows : Option Event → List Event → List Event
follows none trace = trace
follows (some event) trace = event ∷ trace

-- A run from `o` with this trace.
pub data Traced (o : System) : System → List Event → Type 0 where
  start : Traced o o []
  later :
      {s u : System} {trace : List Event} {seen : Option Event}
      → Traced o s trace
      → Step s seen u
      → Traced o u (follows seen trace)
