-- ===== src/PosixParker/Refinement.antt =====
-- The Parker over a condition variable against the contract of `Parker`.
use native.Mathlib.Nat.{one-le-pow}
use valet_parking.Prelude.{
  ℕ, ◌-◌, ◌%◌, ◌≤◌, bit_and, bit_or, Bool, false, ◌==◌, List, [], Option, none, some, ◌≡◌, ◌≢◌,
  refl, arith, ap, sym, Bool-cases, inl, inr,
}
use valet_parking.Prelude.Bits.{bit_and_step, bit_or_step, bit_or-one}
use valet_parking.Word.{Target, not_usize, shr_usize}
use valet_parking.Reserved.{free_bits, reserved_bits}
use valet_parking.Reserved.Fields.{field-pos, usize_mod-eq}
use valet_parking.PosixParker.{
  untimed, timed, last, ParkPc, outside, locking, loading, trying, entering, blocked, relocking,
  woken, clearing, unlocking, destroying, finishing, panicked, UnparkPc, is_outside, is_notified,
  notify_bit, ptr_bits, waiting, After, park, unpark, clear_ptr, signal,
}
use valet_parking.PosixParker.System.{
  System, IsAddress, Mutex, init, Step, call_park, park_locks, park_accesses, park_blocks,
  wakes_early, park_relocks, park_unlocks, park_destroys, call_unpark, unpark_locks, unpark_clears,
  unpark_signals, unpark_unlocks, dangles, Reach, start, later,
}
use valet_parking.PosixParker.Invariant.{Agrees}
use valet_parking.PosixParker.Words.{field-half, ptr_bits-eq, and_not_notify, ptr_lem}
use valet_parking.PosixParker.Steps.{Reach-Inv}
use valet_parking.Contract.Parker as Contract
use valet_parking.Contract.Parker.{Event, follows, Traced, returned, takes_token}

module _ (t : Target) (debug : Bool) where
  -- What a caller sees of a step.
  abbrev pub seen : {s u : System} → Step t debug s u → Option Event
  seen (call_park limit a w ok may) = some (Contract.parks limit)
  seen {s} park_accesses =
      returned (is_outside s.parker)
        (is_outside (park t debug (shr_usize s.addr free_bits) s.atomic s.parker).pc)
  seen (call_unpark i w) = some (Contract.unparks i)
  seen step = none

  -- A run from a start with this trace, in which no call of `park` has a time limit.
  pub data Runs : System → List Event → Type 0 where
    begin : (a : ℕ) → IsAddress t a → Runs (init false a) []
    go :
        {s u : System} {trace : List Event}
        → Runs s trace
        → (step : Step t debug s u) → Runs u (follows (seen step) trace)

  Runs-Reach : {s : System} {trace : List Event} → Runs s trace → Reach t debug false s
  Runs-Reach (begin a ok) = start a ok
  Runs-Reach (go runs step) = later (Runs-Reach runs) step

-- Where the contract has the thread.
abbrev pub place : ParkPc → Contract.Pc
place outside = Contract.idle
place panicked = Contract.idle
place pc = Contract.parked false

-- The token is there when the notify bit is set.
abbrev pub view : ℕ → ParkPc → Contract.System
view a pc = record { token = a % 2 == 1; pc = place pc }

signal-place : (pc : ParkPc) → place (signal pc) ≡ place pc
unfolding signal
signal-place (blocked w) = refl
signal-place outside = refl
signal-place (locking limit) = refl
signal-place (loading limit) = refl
signal-place (trying limit c) = refl
signal-place (entering w) = refl
signal-place (relocking w) = refl
signal-place (woken w) = refl
signal-place (clearing c) = refl
signal-place unlocking = refl
signal-place destroying = refl
signal-place finishing = refl
signal-place panicked = refl

module _ (t : Target) (size : 1 ≤ t.usize_bytes) (debug : Bool) where
  pub clear_ptr-mod : (a : ℕ) → clear_ptr t a % 2 ≡ a % 2
  unfolding clear_ptr
  clear_ptr-mod a =
      let odd : not_usize t (ptr_bits t) % 2 ≡ 1 = omega (
        arith,
        ptr_bits-eq t size,
        usize_mod-eq t size,
        field-half t size,
        one-le-pow (reserved_bits t - 1) 2 (omega arith),
      ) in
      ground (arith, bit_and_step a (not_usize t (ptr_bits t)))

  pub link-mod : (a ptr : ℕ) → ptr % 2 ≡ 0 → bit_or a ptr % 2 ≡ a % 2
  link-mod a ptr even = ground (arith, bit_or_step a ptr)

  pub unpark-mod : (a : ℕ) → (unpark t a).atomic % 2 ≡ 1
  unfolding unpark
  unpark-mod a = omega (arith, bit_or-one a)

  -- The contract has followed an access of `park`.
  abbrev Followed : ParkPc → After ParkPc → List Event → Type 0
  Followed pc after trace =
      Traced (view after.atomic after.pc)
        (follows (returned (is_outside pc) (is_outside after.pc)) trace)

  lands :
      (ptr a : ℕ) (pc : ParkPc) (after : After ParkPc) (trace : List Event)
      → park t debug ptr a pc ≡ after
      → Followed pc after trace
      → Followed pc (park t debug ptr a pc) trace
  lands ptr a pc after trace e followed = rw e followed

  park-Traced :
      {addr : ℕ} (a : ℕ) (m : Mutex) (pc : ParkPc) (u : UnparkPc) (trace : List Event)
      → IsAddress t addr
      → Agrees addr a m pc u
      → Traced (view a pc) trace
      → Followed pc (park t debug (shr_usize addr 5) a pc) trace
  unfolding park
  park-Traced a m outside u trace ok g traced = traced
  park-Traced a m (locking limit) u trace ok g traced = traced
  park-Traced a m (loading limit) u trace ok g traced = traced
  park-Traced {addr} a m (trying limit c) u trace ok g traced =
      let ptr = shr_usize addr 5 in
      elim (Bool-cases (is_notified t c)) [
        | inl told ↦
            lands ptr a (trying limit c) (record { atomic = a; pc = unlocking }) trace
              (ground arith) traced
        | inr other ↦ elim (Bool-cases (a == c)) [
          | inl same ↦
              let here : c ≡ a = ground arith in
              let token : (a % 2 == 1) ≡ (bit_or c ptr % 2 == 1) =
                ap (λ (x : ℕ). x == 1)
                  (sym (rw here (link-mod a ptr (omega (arith, ptr_lem t size ok))))) in
              lands ptr a (trying limit c)
                (record { atomic = bit_or c ptr; pc = entering (waiting limit) }) trace
                (ground arith) (rw token at traced)
          | inr changed ↦
              lands ptr a (trying limit c) (record { atomic = a; pc = trying limit a }) trace
                (ground arith) traced
        ]
      ]
  park-Traced a m (entering w) u trace ok g traced = traced
  park-Traced a m (blocked w) u trace ok g traced = traced
  park-Traced a m (relocking w) u trace ok g traced = traced
  park-Traced {addr} a m (woken untimed) u trace ok g traced = elim (Bool-cases (is_notified t a)) [
    | inl told ↦
        lands (shr_usize addr 5) a (woken untimed) (record { atomic = a; pc = unlocking }) trace
          (ground arith) traced
    | inr other ↦
        lands (shr_usize addr 5) a (woken untimed) (record { atomic = a; pc = entering untimed })
          trace (ground arith) traced
  ]
  park-Traced a m (woken timed) u trace ok g traced = absurd g
  park-Traced a m (woken last) u trace ok g traced = absurd g
  park-Traced a m (clearing c) u trace ok g traced = absurd g
  park-Traced a m unlocking u trace ok g traced = traced
  park-Traced a m destroying u trace ok g traced = traced
  park-Traced {addr} a m finishing u trace ok g traced =
      let one : a ≡ 1 = g.0 in
      let after : bit_and a (not_usize t notify_bit) ≡ 0 =
        ground (arith, and_not_notify t size 1, field-pos t size, field-half t size) in
      lands (shr_usize addr 5) a finishing (record { atomic = 0; pc = outside }) trace
        (ground (arith, after)) (takes_token (ground arith) traced)
  park-Traced a m panicked u trace ok g traced = traced

  -- A step that keeps the notify bit and the place of the thread in the contract.
  keeps :
      (a b : ℕ) (pc qc : ParkPc) (trace : List Event)
      → b % 2 ≡ a % 2
      → place qc ≡ place pc
      → Traced (view a pc) trace
      → Traced (view b qc) trace
  keeps a b pc qc trace same here traced = rw same (rw here traced)

  Step-Traced :
      {s u : System} (trace : List Event) (step : Step t debug s u)
      → Reach t debug false s
      → Traced (view s.atomic s.parker) trace
      → Traced (view u.atomic u.parker) (follows (seen t debug step) trace)
  Step-Traced {s} trace (call_park limit a w ok may) r traced =
      let inv = Reach-Inv t size debug r in
      let none_timed : limit ≡ false = elim (Bool-cases limit) [
        | inl yes_it_is ↦ absurd (ground (arith, may yes_it_is, inv.no_limits))
        | inr no_it_is ↦ no_it_is
      ] in
      rw none_timed (Contract.later (rw w at traced) (Contract.call_park false))
  Step-Traced {s} trace (park_locks {limit} w m) r traced =
      keeps s.atomic s.atomic s.parker (loading limit) trace refl (rw w refl) traced
  Step-Traced {s} trace park_accesses r traced =
      let inv = Reach-Inv t size debug r in
      park-Traced s.atomic s.mutex s.parker _ trace inv.address inv.agrees traced
  Step-Traced {s} trace (park_blocks {w = wait} w) r traced =
      keeps s.atomic s.atomic s.parker (blocked wait) trace refl (rw w refl) traced
  Step-Traced {s} trace wakes_early r traced =
      keeps s.atomic s.atomic s.parker (signal s.parker) trace refl (signal-place s.parker) traced
  Step-Traced {s} trace (park_relocks {w = wait} w m) r traced =
      keeps s.atomic s.atomic s.parker (woken wait) trace refl (rw w refl) traced
  Step-Traced {s} trace (park_unlocks w) r traced =
      keeps s.atomic s.atomic s.parker destroying trace refl (rw w refl) traced
  Step-Traced {s} trace (park_destroys w) r traced =
      keeps s.atomic s.atomic s.parker finishing trace refl (rw w refl) traced
  Step-Traced {s} trace (call_unpark i w) r traced =
      rw (unpark-mod s.atomic) (Contract.later traced (Contract.unpark i))
  Step-Traced {s} trace (unpark_locks i w live m) r traced = traced
  Step-Traced {s} trace (unpark_clears i w) r traced =
      keeps s.atomic _ s.parker s.parker trace (clear_ptr-mod s.atomic) refl traced
  Step-Traced {s} trace (unpark_signals i w live) r traced =
      keeps s.atomic s.atomic s.parker (signal s.parker) trace refl (signal-place s.parker) traced
  Step-Traced {s} trace (unpark_unlocks i w live) r traced = traced
  Step-Traced {s} trace (dangles i p used gone) r traced = traced

  Runs-Traced :
      {s : System} {trace : List Event}
      → Runs t debug s trace
      → Traced (view s.atomic s.parker) trace
  Runs-Traced (begin a ok) = Contract.start
  Runs-Traced (go runs step) = Step-Traced _ step (Runs-Reach t debug runs) (Runs-Traced runs)

  -- With one thread that parks, always without a timeout, and any number that unpark it, every
  -- trace of the Parker over a condition variable, whatever spurious wakeups there were, is the
  -- trace of a run of the contract of Parker, in which park returns only when it takes a token
  -- that unpark left; the token is there exactly when the notify bit is set; and park has not
  -- panicked.
  pub posix_parker_refines_contract :
      {s : System} {trace : List Event}
      → Runs t debug s trace
      → Traced (view s.atomic s.parker) trace × (s.parker ≢ panicked)
  posix_parker_refines_contract runs =
      let inv = Reach-Inv t size debug (Runs-Reach t debug runs) in
      (Runs-Traced runs, λ e. rw e at inv.agrees)
