-- ===== src/PosixWaiters/Parking.antt =====
-- What one step of a call of `park` or `unpark` does to the notify bit and to the place of the thread.
use valet_parking.Prelude.{
  ℕ, ◌%◌, ◌≤◌, ◌≡◌, ◌≢◌, ◌⊎◌, Bool, true, false, ◌==◌, refl, arith, inl, inr, Bool-cases, bit_or,
}
use valet_parking.Word.{Target, shr_usize}
use valet_parking.PosixParker.{
  ParkPc, untimed, timed, last, outside, locking, loading, trying, entering, blocked, relocking,
  woken, clearing, unlocking, destroying, finishing, panicked, UnparkPc, idle, is_outside,
  is_notified, waiting, After, park, signal,
}
use valet_parking.PosixParker.System.{
  System, IsAddress, Mutex, Step, call_park, park_locks, park_accesses, park_blocks, wakes_early,
  park_relocks, park_unlocks, park_destroys, call_unpark, unpark_locks, unpark_clears,
  unpark_signals, unpark_unlocks, dangles,
}
use valet_parking.PosixParker.Invariant.{Inv, Agrees, active_lem}
use valet_parking.PosixParker.Words.{ptr_lem}
use valet_parking.PosixParker.Refinement.{link-mod, clear_ptr-mod}
use valet_parking.PosixWaiters.System.{is_call}

-- A step keeps the notify bit and leaves the thread inside or outside of `park`; or `park` returns
-- with the notify bit set.
abbrev pub Goes : (a : ℕ) → ParkPc → (b : ℕ) → ParkPc → Type 0
Goes a p b q =
    ((b % 2 ≡ a % 2) × (is_outside q ≡ is_outside p))
    ⊎ ((a % 2 ≡ 1) × (is_outside p ≡ false) × (is_outside q ≡ true))

signal-outside : (p : ParkPc) → is_outside (signal p) ≡ is_outside p
unfolding signal
signal-outside (blocked w) = refl
signal-outside outside = refl
signal-outside (locking limit) = refl
signal-outside (loading limit) = refl
signal-outside (trying limit c) = refl
signal-outside (entering w) = refl
signal-outside (relocking w) = refl
signal-outside (woken w) = refl
signal-outside (clearing c) = refl
signal-outside unlocking = refl
signal-outside destroying = refl
signal-outside finishing = refl
signal-outside panicked = refl

module _ (t : Target) (size : 1 ≤ t.usize_bytes) (debug : Bool) where
  becomes :
      (ptr a : ℕ) (p : ParkPc) (after : After ParkPc)
      → park t debug ptr a p ≡ after
      → Goes a p after.atomic after.pc
      → Goes a p (park t debug ptr a p).atomic (park t debug ptr a p).pc
  becomes ptr a p after e g = rw e g

  park-Goes :
      {addr : ℕ} (a : ℕ) (m : Mutex) (p : ParkPc) (u : UnparkPc)
      → IsAddress t addr
      → Agrees addr a m p u
      → Goes a p
          (park t debug (shr_usize addr 5) a p).atomic
          (park t debug (shr_usize addr 5) a p).pc
  unfolding park
  park-Goes {addr} a m (trying limit c) u ok g =
      let ptr = shr_usize addr 5 in
      let even = link-mod t size debug c ptr (omega (arith, ptr_lem t size ok)) in
      elim (Bool-cases (is_notified t c)) [
        | inl told ↦
            becomes ptr a (trying limit c) (record { atomic = a; pc = unlocking }) (ground arith)
              (inl (refl, refl))
        | inr other ↦ elim (Bool-cases (a == c)) [
          | inl same ↦
              becomes ptr a (trying limit c)
                (record { atomic = bit_or c ptr; pc = entering (waiting limit) }) (ground arith)
                (inl (ground (arith, even), refl))
          | inr changed ↦
              becomes ptr a (trying limit c) (record { atomic = a; pc = trying limit a })
                (ground arith) (inl (refl, refl))
        ]
      ]
  park-Goes {addr} a m (woken untimed) u ok g = elim (Bool-cases (is_notified t a)) [
    | inl told ↦
        becomes (shr_usize addr 5) a (woken untimed) (record { atomic = a; pc = unlocking })
          (ground arith) (inl (refl, refl))
    | inr other ↦
        becomes (shr_usize addr 5) a (woken untimed) (record { atomic = a; pc = entering untimed })
          (ground arith) (inl (refl, refl))
  ]
  park-Goes a m (woken timed) u ok g = absurd g
  park-Goes a m (woken last) u ok g = absurd g
  park-Goes a m (clearing c) u ok g = absurd g
  park-Goes a m finishing u ok g = inr (ground arith, refl, refl)
  park-Goes a m p u ok g = inl (refl, refl)

  pub Step-Goes :
      {s r : System} (step : Step t debug s r)
      → is_call t debug step ≡ false
      → Inv t s
      → Goes s.atomic s.parker r.atomic r.parker
  Step-Goes (call_park limit a w ok may) inner inv = cc
  Step-Goes (park_locks w m) inner inv = inl (refl, rw w refl)
  Step-Goes {s} park_accesses inner inv =
      park-Goes s.atomic s.mutex s.parker _ inv.address inv.agrees
  Step-Goes (park_blocks w) inner inv = inl (refl, rw w refl)
  Step-Goes {s} wakes_early inner inv = inl (refl, signal-outside s.parker)
  Step-Goes (park_relocks w m) inner inv = inl (refl, rw w refl)
  Step-Goes (park_unlocks w) inner inv = inl (refl, rw w refl)
  Step-Goes (park_destroys w) inner inv = inl (refl, rw w refl)
  Step-Goes (call_unpark i w) inner inv = cc
  Step-Goes (unpark_locks i w live m) inner inv = inl (refl, refl)
  Step-Goes {s} (unpark_clears i w) inner inv = inl (clear_ptr-mod t size debug s.atomic, refl)
  Step-Goes {s} (unpark_signals i w live) inner inv = inl (refl, signal-outside s.parker)
  Step-Goes (unpark_unlocks i w live) inner inv = inl (refl, refl)
  Step-Goes (dangles i p used gone) inner inv = inl (refl, refl)

  -- While a thread is past the `fetch_or` of an `unpark` that found a thread to wake, the notify bit is
  -- set and the thread is in `park`.
  busy-Agrees :
      (addr a : ℕ) (m : Mutex) (p : ParkPc) (u : UnparkPc)
      → IsAddress t addr
      → Agrees addr a m p u
      → u ≢ idle
      → (a % 2 ≡ 1) × (is_outside p ≡ false)
  busy-Agrees addr a m p u ok g busy = ground (arith, ptr_lem t size ok)

  pub busy_lem :
      {s : System} (i : ℕ)
      → Inv t s
      → s.unparker i ≢ idle
      → (s.atomic % 2 ≡ 1) × (is_outside s.parker ≡ false)
  busy_lem {s} i inv busy =
      let now = active_lem s.unparker i inv.who (inv.only i busy) in
      busy-Agrees s.addr s.atomic s.mutex s.parker (s.unparker i) inv.address (rw now at inv.agrees)
        busy

pub outside_lem : (p : ParkPc) → is_outside p ≡ true → p ≡ outside
outside_lem outside e = refl
outside_lem p e = cc
