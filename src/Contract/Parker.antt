-- ===== src/Contract/Parker.antt =====
-- The contract of `Parker`: what its callers may see. A call of `unpark` leaves a token, and a call of
-- `park` takes it; without a timeout it waits for one.
use valet_parking.Prelude.{ℕ, Bool, true, false, List, [], ◌∷◌, Option, none, some, ◌≡◌}

-- Where the thread that parks stands. `timed` says whether there is a timeout.
pub data Pc : Type 0 where
  idle : Pc
  parked : (timed : Bool) → Pc
  leaving : Pc

pub data Event : Type 0 where
  parks : (timed : Bool) → Event
  returns : Event
  unparks : (thread : ℕ) → Event

pub record System : Type 0 where
  pub token : Bool
  pub pc : Pc

-- A step, with what a caller sees of it.
pub data Step : System → Option Event → System → Type 0 where
  call_park :
      {token : Bool} (timed : Bool)
      → Step
          (record { token = token; pc = idle })
          (some (parks timed))
          (record { token = token; pc = parked timed })
  take :
      {timed : Bool}
      → Step
          (record { token = true; pc = parked timed })
          none
          (record { token = false; pc = leaving })
  -- Only with a timeout may `park` end with no token.
  give_up :
      Step
        (record { token = false; pc = parked true })
        none
        (record { token = false; pc = leaving })
  return :
      {token : Bool}
      → Step
          (record { token = token; pc = leaving })
          (some returns)
          (record { token = token; pc = idle })
  unpark :
      {token : Bool} {pc : Pc} (i : ℕ)
      → Step
          (record { token = token; pc = pc })
          (some (unparks i))
          (record { token = true; pc = pc })

-- The trace so far, the last event first.
abbrev pub follows : Option Event → List Event → List Event
follows none trace = trace
follows (some event) trace = event ∷ trace

-- A run from the start with this trace.
pub data Traced : System → List Event → Type 0 where
  start : Traced (record { token = false; pc = idle }) []
  later :
      {s u : System} {trace : List Event} {seen : Option Event}
      → Traced s trace
      → Step s seen u
      → Traced u (follows seen trace)

-- A call that was under way has returned.
abbrev pub returned : (was_outside is_outside : Bool) → Option Event
returned false true = some returns
returned was now = none

-- `park` returns with the token, or for its timeout.
pub takes_token :
    {token : Bool} {timed : Bool} {trace : List Event}
    → token ≡ true
    → Traced (record { token = token; pc = parked timed }) trace
    → Traced (record { token = false; pc = idle }) (returns ∷ trace)
takes_token there traced = later (later (rw there at traced) take) return

pub ends_timed :
    (token : Bool) {trace : List Event}
    → Traced (record { token = token; pc = parked true }) trace
    → Traced (record { token = false; pc = idle }) (returns ∷ trace)
ends_timed true traced = later (later traced take) return
ends_timed false traced = later (later traced give_up) return
