-- ===== src/FutexWaiters/Agreement.antt =====
-- Traces of the Waiters over a futex, and how its threads agree with those of the contract.
use valet_parking.Prelude.{ℕ, ◌+◌, ◌≡◌, Option, none, some, List, [], ◌⊎◌, inl, refl}
use valet_parking.Word.{Target}
use valet_parking.Reserved.{IsFree}
use valet_parking.FutexWaiters.{
  Pc, outside, marking, waiting, asleep, checking, storing, waking, is_outside, has_waiters,
  pub_bits, compare_and_wait, store_and_wake, woken, ends_early,
}
use valet_parking.FutexWaiters.System.{
  System, init, Step, call_wait, call_store, exchanges, comparing, early_end, swapping, waking_up,
  Reach, start, later,
}
use valet_parking.Contract
use valet_parking.Contract.{Event, follows, Traced, leaving, idle, signal}
use valet_parking.Contract.Agreement.{
  WaitsFor, signal-WaitsFor, Signalled, signal-Signalled, Takes, returned, Reads,
}

module _ (t : Target) where
  -- What a caller sees of a step.
  abbrev pub seen : {s u : System} → Step t s u → Option Event
  seen (call_wait i expected w fits) = some (Contract.waits i (pub_bits t expected))
  seen (call_store i new w free) = some (Contract.stores i new)
  seen (exchanges i new w old free) = some (Contract.exchanges i new)
  seen {s} (comparing i) =
      returned i (is_outside (s.pc i)) (is_outside (compare_and_wait t s.atomic (s.pc i)).pc)
  seen (early_end i) = none
  seen {s} (swapping i) =
      returned i (is_outside (s.pc i)) (is_outside (store_and_wake t s.atomic (s.pc i)).pc)
  seen (waking_up i w) = some (Contract.returns i)

  -- A run from a start with this trace.
  pub data Runs : System → List Event → Type 0 where
    begin : (a : ℕ) → IsFree t a → Runs (init a) []
    go :
        {s u : System} {trace : List Event}
        → Runs s trace
        → (step : Step t s u) → Runs u (follows (seen step) trace)

  pub Runs-Reach : {s : System} {trace : List Event} → Runs s trace → Reach t s
  Runs-Reach (begin a free) = start a free
  Runs-Reach (go runs step) = later (Runs-Reach runs) step

  -- Who waits while the atomic is not written has left it marked.
  abbrev pub Excused : (word e : ℕ) → Contract.Pc → Type 0
  Excused word e q = WaitsFor e q × (Signalled q ⊎ (word ≡ e + has_waiters t))

  -- Where the contract has a thread that stands here.
  abbrev pub Matches : (word : ℕ) → Pc → Contract.Pc → Type 0
  Matches word outside q = q ≡ idle
  Matches word (marking e) q = WaitsFor e q
  Matches word (waiting e) q = Excused word e q
  Matches word (asleep e) q = Excused word e q
  Matches word (checking e) q = Excused word e q
  Matches word (storing new) q = q ≡ Contract.storing new
  Matches word waking q = q ≡ leaving

  pub record Agrees (s : System) (a : Contract.System) : Type 0 where
    pub reads : Reads t a s.atomic
    pub pcs : (i : ℕ) → Matches s.atomic (s.pc i) (a.pc i)

  -- The contract has a run from `o` with this trace that ends in agreement.
  abbrev pub AllowedFrom : (start : Contract.System) → System → List Event → Type 0
  AllowedFrom o s trace = (a : Contract.System) × Traced o a trace × Agrees s a

  -- It has one from a start.
  abbrev pub Allowed : System → List Event → Type 0
  Allowed s trace = (v : ℕ) × AllowedFrom (Contract.init v) s trace

  -- A thread of the contract takes a place that matches `new`.
  abbrev pub Follows :
      (start : Contract.System)
      → Contract.System
      → List Event
      → ℕ
      → Option Event
      → (word : ℕ) → Pc
      → Type 0
  Follows o a trace i event word new =
      (q : Contract.Pc) × Takes o a trace i event q × Matches word new q

  signal-Excused : (word new e : ℕ) (q : Contract.Pc) → WaitsFor e q → Excused new e (signal q)
  signal-Excused word new e q w = (signal-WaitsFor e q w, inl (signal-Signalled e q w))

  -- To write any value keeps the match.
  pub signal-Matches :
      (word new : ℕ) (pc : Pc) (q : Contract.Pc) → Matches word pc q → Matches new pc (signal q)
  signal-Matches word new outside q m = rw m refl
  signal-Matches word new (marking e) q m = signal-WaitsFor e q m
  signal-Matches word new (waiting e) q m = signal-Excused word new e q m.0
  signal-Matches word new (asleep e) q m = signal-Excused word new e q m.0
  signal-Matches word new (checking e) q m = signal-Excused word new e q m.0
  signal-Matches word new (storing v) q m = rw m refl
  signal-Matches word new waking q m = rw m refl

  pub woken-Matches :
      (word : ℕ) (pc : Pc) (q : Contract.Pc) → Matches word pc q → Matches word (woken pc) q
  unfolding woken
  woken-Matches word outside q m = m
  woken-Matches word (marking e) q m = m
  woken-Matches word (waiting e) q m = m
  woken-Matches word (asleep e) q m = m
  woken-Matches word (checking e) q m = m
  woken-Matches word (storing v) q m = m
  woken-Matches word waking q m = m

  pub ends_early-Matches :
      (word : ℕ) (pc : Pc) (q : Contract.Pc) → Matches word pc q → Matches word (ends_early pc) q
  unfolding ends_early
  ends_early-Matches word outside q m = m
  ends_early-Matches word (marking e) q m = m
  ends_early-Matches word (waiting e) q m = m
  ends_early-Matches word (asleep e) q m = m
  ends_early-Matches word (checking e) q m = m
  ends_early-Matches word (storing v) q m = m
  ends_early-Matches word waking q m = m
