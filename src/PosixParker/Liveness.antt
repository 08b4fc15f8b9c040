-- ===== src/PosixParker/Liveness.antt =====
-- A notified thread in `park` returns, wherever it stands.
use valet_parking.Prelude.{ℕ, zero, suc, ◌≤◌, ◌≡◌, ◌≢◌, Bool, true, false, arith, refl}
use valet_parking.Prelude.Bits.{bit_and-one}
use valet_parking.Word.{Target}
use valet_parking.PosixParker.{
  ParkPc, untimed, outside, locking, loading, trying, entering, blocked, relocking, woken,
  unlocking, destroying, finishing, UnparkPc, idle, park, has_notify_bit,
}
use valet_parking.PosixParker.System.{System, Reach, park_locks, park_accesses, park_destroys}
use valet_parking.PosixParker.Words.{and_mask, ptr_lem, field-half}
use valet_parking.Reserved.Fields.{field-pos}
use valet_parking.PosixParker.Invariant.{Inv, active, active_who, Agrees, Holds}
use valet_parking.PosixParker.Steps.{Reach-Inv}
use valet_parking.PosixParker.Progress.{
  Completes, advance-Completes, finishing-Completes, unlocking-Completes, woken-Completes,
  relocking-Completes, busy-Completes,
}

module _ (t : Target) (size : 1 ≤ t.usize_bytes) (debug : Bool) where
  -- Nobody is in the middle of waking the thread, and the notification is there.
  trying-Completes :
      {s : System} (limit : Bool) (c : ℕ)
      → Inv t s
      → s.parker ≡ trying limit c
      → s.atomic ≡ 1
      → c ≡ 1
      → Completes t debug s
  unfolding park
  trying-Completes limit c inv e n current =
      advance-Completes t size debug park_accesses refl inv λ inv'.
        unlocking-Completes t size debug inv'
          (ground (arith, and_mask t size 1, field-pos t size, field-half t size))

  retrying-Completes :
      {s : System} (limit : Bool) (c : ℕ)
      → Inv t s
      → s.parker ≡ trying limit c
      → s.atomic ≡ 1
      → c ≡ 0
      → Completes t debug s
  unfolding park
  retrying-Completes {s} limit c inv e n current =
      advance-Completes t size debug park_accesses refl inv λ inv'.
        trying-Completes limit 1 inv'
          (ground (arith, and_mask t size 0, field-pos t size, field-half t size))
          (ground (arith, and_mask t size 0, field-pos t size, field-half t size)) refl

  loading-Completes :
      {s : System} (limit : Bool)
      → Inv t s
      → s.parker ≡ loading limit
      → s.atomic ≡ 1
      → Completes t debug s
  unfolding park
  loading-Completes {s} limit inv e n =
      advance-Completes t size debug park_accesses refl inv
        λ inv'. trying-Completes limit s.atomic inv' (ground arith) (ground arith) n

  idle-Completes :
      {s : System} (pc : ParkPc)
      → s.parker ≡ pc
      → Inv t s
      → Holds s.mutex idle
      → Agrees s.addr s.atomic s.mutex pc idle
      → has_notify_bit t s.atomic ≡ true
      → pc ≢ outside
      → Completes t debug s
  idle-Completes outside e inv h g n inside = absurd (inside refl)
  idle-Completes {s} (locking limit) e inv h g n inside =
      advance-Completes t size debug (park_locks e g.3) refl inv
        λ inv'. loading-Completes limit inv' refl (ground (arith, bit_and-one s.atomic))
  idle-Completes {s} (loading limit) e inv h g n inside =
      loading-Completes limit inv e (ground (arith, bit_and-one s.atomic))
  idle-Completes {s} (trying limit zero) e inv h g n inside =
      retrying-Completes limit 0 inv e (ground (arith, bit_and-one s.atomic)) refl
  idle-Completes {s} (trying limit (suc c)) e inv h g n inside =
      trying-Completes limit (suc c) inv e (ground (arith, bit_and-one s.atomic)) (omega arith)
  idle-Completes {s} (entering untimed) e inv h g n inside =
      absurd (ground (arith, bit_and-one s.atomic, ptr_lem t size inv.address))
  idle-Completes {s} (blocked untimed) e inv h g n inside =
      absurd (ground (arith, bit_and-one s.atomic, ptr_lem t size inv.address))
  idle-Completes {s} (relocking untimed) e inv h g n inside =
      relocking-Completes t size debug inv e
        (ground (arith, bit_and-one s.atomic, ptr_lem t size inv.address)) (ground arith)
  idle-Completes {s} (woken untimed) e inv h g n inside =
      woken-Completes t size debug inv e
        (ground (arith, bit_and-one s.atomic, ptr_lem t size inv.address))
  idle-Completes unlocking e inv h g n inside = unlocking-Completes t size debug inv e
  idle-Completes destroying e inv h g n inside =
      advance-Completes t size debug (park_destroys e) refl inv
        λ inv'. finishing-Completes t size debug inv' refl
  idle-Completes finishing e inv h g n inside = finishing-Completes t size debug inv e
  idle-Completes pc e inv h g n inside = absurd g

  active-Completes :
      {s : System} (u : UnparkPc) (inv : Inv t s)
      → active s.unparker inv.who ≡ u
      → has_notify_bit t s.atomic ≡ true
      → s.parker ≢ outside
      → Completes t debug s
  active-Completes {s} idle inv e n inside =
      idle-Completes s.parker refl inv (rw e at inv.holds) (rw e at inv.agrees) n inside
  active-Completes {s} u inv e n inside =
      let (i, at) = active_who s.unparker inv.who u e (λ z. cc) in
      busy-Completes t size debug i u inv at (λ z. cc)

  -- In every reachable state in which the notify bit is set and a thread is in park, if no call
  -- of park has a time limit, the steps of the calls under way lead to a state in which park has
  -- returned and the word is 0: no further call, spurious wakeup or timeout is needed.
  pub notified_posix_park_returns :
      {s : System}
      → Reach t debug false s
      → has_notify_bit t s.atomic ≡ true
      → s.parker ≢ outside
      → Completes t debug s
  notified_posix_park_returns r n inside =
      let inv = Reach-Inv t size debug r in active-Completes (active _ inv.who) inv refl n inside
