-- ===== src/Contract/Calls.antt =====
-- What a step of the contract of `Waiters` tells a client that made a call.
use valet_parking.Prelude.{ℕ, ◌≡◌, false, some, refl}
use valet_parking.Contract.{
  System, Step, call_wait, call_store, return, waits, stores, returns, idle, waiting, storing,
  leaving, moves,
}

pub stores_lem :
    {s : System} {i new : ℕ} {u : System}
    → Step s (some (stores i new)) u
    → (s.pc i ≡ idle) × (u ≡ moves s i (storing new))
stores_lem (call_store i new here) = (here, refl)

pub waits_lem :
    {s : System} {i e : ℕ} {u : System}
    → Step s (some (waits i e)) u
    → (s.pc i ≡ idle) × (u ≡ moves s i (waiting e false))
waits_lem (call_wait i e here) = (here, refl)

pub returns_lem :
    {s : System} {i : ℕ} {u : System}
    → Step s (some (returns i)) u
    → (s.pc i ≡ leaving) × (u ≡ moves s i idle)
returns_lem (return i here) = (here, refl)
