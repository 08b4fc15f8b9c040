-- ===== src/PosixParker/Timeouts.antt =====
-- What goes wrong when a call of `park` has a time limit: a thread that is about to wake it is left
-- with a pointer into a stack frame that is gone.
use valet_parking.Prelude.{ℕ, ◌≡◌, Bool, true, false, arith, refl}
use valet_parking.Word.{Target}
use valet_parking.PosixParker.{last, woken, unlocking, locking_at, park}
use valet_parking.PosixParker.System.{System, Reach, later, park_accesses, park_unlocks, dangles}

-- Once `park` is about to unlock, nothing keeps it from returning.
unlocking-faults :
    {t : Target} {debug limits : Bool} {s : System} (i : ℕ) {p : ℕ}
    → Reach t debug limits s
    → s.parker ≡ unlocking
    → s.unparker i ≡ locking_at p
    → (u : System) × Reach t debug limits u × (u.faulted ≡ true)
unlocking-faults i {p} r e at =
    (_, later (later r (park_unlocks e)) (dangles i p (ground arith) refl), refl)

module _ (t : Target) (debug limits : Bool) {s : System} (i : ℕ) {p : ℕ} where
  pub last_wait-faults :
      debug ≡ false
      → Reach t debug limits s
      → s.parker ≡ woken last
      → s.unparker i ≡ locking_at p
      → (u : System) × Reach t debug limits u × (u.faulted ≡ true)
  unfolding park
  last_wait-faults release r e at = unlocking-faults i (later r park_accesses) (ground arith) at
