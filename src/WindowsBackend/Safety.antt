-- ===== src/WindowsBackend/Safety.antt =====
-- What `BackendStatic` promises, and what its panic leaves behind.
use valet_parking.Prelude.{ℕ, ◌≡◌, ◌≢◌, ◌⊎◌, Bool, Option, none, some, arith, refl, inl, inr, ◌∙◌}
use valet_parking.Prelude.Family.{update}
use valet_parking.WindowsBackend.{
  Api, probe, probe_wait_address, probe_keyed_event, Backend, Pc, outside, loading, probing,
  setting, publishing, spinning, reading, returned, panicked, ready, initializing, get,
}
use valet_parking.WindowsBackend.System.{
  System, gets, Step, call, getting, Reach, start, later, Runs, done, next,
}

-- The thread has won the exchange and has not published the backend.
abbrev Initialises : Pc → Type 0
Initialises probing = Unit
Initialises (setting b) = Unit
Initialises (publishing b) = Unit
Initialises panicked = Unit
Initialises pc = ⊥

-- What goes with each place in `get`.
abbrev Agrees : (found : Option Backend) (status : ℕ) → Backend → Pc → Type 0
Agrees found status backend probing = status ≡ initializing
Agrees found status backend (setting b) = (status ≡ initializing) × (found ≡ some b)
Agrees found status backend (publishing b) =
    (status ≡ initializing) × (found ≡ some b) × (backend ≡ b)
Agrees found status backend reading = status ≡ ready
Agrees found status backend (returned b) = found ≡ some b
Agrees found status backend panicked = (status ≡ initializing) × (found ≡ none)
Agrees found status backend pc = Unit

record Inv (found : Option Backend) (s : System) : Type 0 where
  agrees : (i : ℕ) → Agrees found s.status s.backend (s.pc i)
  published : s.status ≡ ready → found ≡ some s.backend
  one : (i j : ℕ) → Initialises (s.pc i) → Initialises (s.pc j) → i ≡ j

gets-Inv :
    {found : Option Backend} {s : System} (i : ℕ) (pc : Pc)
    → s.pc i ≡ pc
    → Inv found s
    → Inv found (gets found s i)
unfolding get
gets-Inv {found} {s} i pc w inv = record {
  agrees = λ k. ground (arith, inv.agrees i, inv.agrees k, inv.one i k);
  published = ground (arith, inv.agrees i);
  one = λ j k a b.
      ground
        (arith, inv.agrees i, inv.agrees j, inv.agrees k, inv.one j k, inv.one i j, inv.one i k);
}

call-Inv :
    {found : Option Backend} {s : System} (i : ℕ)
    → s.pc i ≡ outside
    → Inv found s
    → Inv found (record s { pc = update s.pc i loading })
call-Inv {found} {s} i w inv = record {
  agrees = λ k. ground (arith, inv.agrees k);
  published = inv.published;
  one = λ j k a b. ground (arith, inv.one j k);
}

Step-Inv : {found : Option Backend} {s u : System} → Step found s u → Inv found s → Inv found u
Step-Inv (call i w) inv = call-Inv i w inv
Step-Inv {s = s} (getting i) inv = gets-Inv i (s.pc i) refl inv

Reach-Inv : {found : Option Backend} {s : System} → Reach found s → Inv found s
Reach-Inv start = record {
  agrees = λ i. tt;
  published = λ e. absurd (omega arith);
  one = λ i j a b. absurd a;
}
Reach-Inv (later r step) = Step-Inv step (Reach-Inv r)

pub backend_never_races :
    {found : Option Backend} {s : System} (i j : ℕ) (b : Backend)
    → Reach found s
    → s.pc i ≡ reading
    → s.pc j ≢ setting b
backend_never_races i j b r w x =
    let inv = Reach-Inv r in ground (arith, inv.agrees i, inv.agrees j)

-- In every reachable state of BackendStatic on Windows, with any number of threads that ask, a
-- backend that a call of get has returned is what ProbeWaitAddress finds, or, if that finds
-- nothing, what ProbeKeyedEvent finds.
pub returned_backend_is_probed :
    (fallback : Bool) (api : Api) {s : System} (i : ℕ) (b : Backend)
    → Reach (probe fallback api) s
    → s.pc i ≡ returned b
    → (probe_wait_address fallback api ≡ some b)
      ⊎ ((probe_wait_address fallback api ≡ none) × (probe_keyed_event api ≡ some b))
unfolding probe
returned_backend_is_probed fallback api {s} i b r w =
    let inv = Reach-Inv r in
    let chosen : probe fallback api ≡ some b = rw w at (inv.agrees i) in
    go (probe_wait_address fallback api) refl chosen
  where
    go :
        (first : Option Backend)
        → probe_wait_address fallback api ≡ first
        → probe fallback api ≡ some b
        → (probe_wait_address fallback api ≡ some b)
          ⊎ ((probe_wait_address fallback api ≡ none) × (probe_keyed_event api ≡ some b))
    go none e x = inr (e, rw (e, probe) at x)
    go (some c) e x = inl (e ∙ rw (e, probe) at x)

stays_panicked :
    {found : Option Backend} {s u : System} (i j : ℕ)
    → Inv found s
    → Step found s u
    → s.pc i ≡ panicked
    → s.pc j ≡ spinning
    → (u.pc i ≡ panicked) × (u.pc j ≡ spinning)
unfolding get
stays_panicked i j inv (call k w) p q = (ground arith, ground arith)
stays_panicked {s = s} i j inv (getting k) p q =
    (ground (arith, inv.agrees i), ground (arith, inv.agrees i))

-- From every reachable state of BackendStatic in which the initialising thread has panicked, a
-- thread in the spin loop of init is still there after any number of steps of any threads.
pub panic_leaves_spinning :
    {found : Option Backend} {s u : System} (i j : ℕ)
    → Reach found s
    → s.pc i ≡ panicked
    → s.pc j ≡ spinning
    → Runs found s u
    → u.pc j ≡ spinning
panic_leaves_spinning i j r p q (done s) = q
panic_leaves_spinning i j r p q (next step run) =
    let (p', q') = stays_panicked i j (Reach-Inv r) step p q in
    panic_leaves_spinning i j (later r step) p' q' run
