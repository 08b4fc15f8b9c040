-- ===== src/PosixParker/Safety.antt =====
-- What the Parker over a condition variable promises, if no call of `park` has a time limit.
use valet_parking.Prelude.{ℕ, ◌≤◌, ◌≡◌, Bool, true, false, arith, refl}
use valet_parking.Word.{Target}
use valet_parking.PosixParker.{
  Waiting, blocked, finishing, outside, untimed, timed, last, UnparkPc, signalling, notify_bit,
  is_notified, park,
}
use valet_parking.PosixParker.System.{System, Mutex, IsAddress, Reach, parks}
use valet_parking.PosixParker.Words.{and_mask, and_not_notify, ptr_lem, field-half}
use valet_parking.Reserved.Fields.{field-pos}
use valet_parking.PosixParker.Invariant.{Inv, active, active_who, Agrees}
use valet_parking.PosixParker.Steps.{Reach-Inv}

blocked_signalled :
    (t : Target)
    → 1 ≤ t.usize_bytes
    → {addr : ℕ} → IsAddress t addr
    → (a : ℕ) (m : Mutex) (w : Waiting) (u : UnparkPc) → Agrees addr a m (blocked w) u
    → is_notified t a ≡ true
    → (p : ℕ) × (u ≡ signalling p)
blocked_signalled t size ok a m untimed (signalling p) g n = (p, refl)
blocked_signalled t size ok a m untimed u g n =
    absurd (ground (arith, ptr_lem t size ok, and_mask t size a))
blocked_signalled t size ok a m timed u g n = absurd g
blocked_signalled t size ok a m last u g n = absurd g

module _ (t : Target) (size : 1 ≤ t.usize_bytes) (debug : Bool) {s : System}
    (r : Reach t debug false s) where
  inv : Inv t s
  inv = Reach-Inv t size debug r

  -- In every state that the Parker over a condition variable can reach, with one thread that
  -- parks and any number that unpark it, if no call of park has a time limit, no pthread call of
  -- unpark has been given a pointer to a PosixParker that was gone.
  pub posix_never_faults : s.faulted ≡ false
  posix_never_faults = inv.no_fault

  signalled :
      (w : Waiting)
      → s.parker ≡ blocked w
      → is_notified t s.atomic ≡ true
      → (p : ℕ) × (active s.unparker inv.who ≡ signalling p)
  signalled w e n =
      blocked_signalled t size inv.address s.atomic s.mutex w (active s.unparker inv.who)
        (rw e at inv.agrees) n

  pub posix_no_lost_wakeup :
      (w : Waiting)
      → s.parker ≡ blocked w
      → is_notified t s.atomic ≡ true
      → (i : ℕ) × ((p : ℕ) × (s.unparker i ≡ signalling p))
  posix_no_lost_wakeup w e n =
      let (p, now) = signalled w e n in
      let (i, at) = active_who s.unparker inv.who (signalling p) now (λ z. cc) in (i, (p, at))

  pub posix_returns_notified :
      s.parker ≡ finishing
      → (s.atomic ≡ notify_bit)
        × ((parks t debug s).atomic ≡ 0)
        × ((parks t debug s).parker ≡ outside)
  unfolding park
  posix_returns_notified e =
      ground (arith, inv.agrees, and_not_notify t size 1, field-pos t size, field-half t size)
