-- ===== src/PosixParker/Steps.antt =====
-- Every step keeps the invariant, if no call of `park` has a time limit.
use valet_parking.Prelude.{
  ℕ, ◌≤◌, ◌≡◌, ◌≢◌, Bool, true, false, none, some, arith, refl, inl, inr, ap, sym, ◌∙◌, ℕ_discrete,
}
use mathlib.Core.Bool.{false≢true}
use valet_parking.Prelude.Family.{update}
use valet_parking.Word.{Target}
use valet_parking.PosixParker.{
  untimed, ParkPc, locking, loading, entering, blocked, woken, destroying, finishing, UnparkPc,
  idle, locking_at, holding, signalling, releasing, unpark, clear_ptr, signal,
}
use valet_parking.PosixParker.System.{
  Mutex, free, by_parker, by_unparker, System, IsAddress, alive, lives, Uses, unparks_by, Step,
  call_park, park_locks, park_accesses, park_blocks, wakes_early, park_relocks, park_unlocks,
  park_destroys, call_unpark, unpark_locks, unpark_clears, unpark_signals, unpark_unlocks, dangles,
  Reach, start, later,
}
use valet_parking.PosixParker.Words.{and_not_ptr_bits, ptr_lem}
use valet_parking.PosixParker.Invariant.{
  active, Holds, Agrees, Inv, active-update, active_lem, active-update_self,
}
use valet_parking.PosixParker.Accesses.{parks-Agrees, unpark-Found}

module _ (t : Target) (size : 1 ≤ t.usize_bytes) (debug : Bool) where
  unparks-Inv :
      {s : System} (i : ℕ) → s.unparker i ≡ idle → Inv t s → Inv t (unparks_by t debug i s)
  unparks-Inv {s} i e inv =
      elim (unpark-Found t size debug s.atomic s.mutex s.parker u inv.address inv.agrees) [
        | inl (nothing, g) ↦
            let still = active-update s.unparker i (unpark t s.atomic).pc inv.who (ground arith) in
            record {
              no_limits = inv.no_limits;
              no_fault = inv.no_fault;
              address = inv.address;
              who = inv.who;
              only = λ j busy. ground (arith, inv.only j);
              holds = rw still inv.holds;
              agrees = rw still g;
            }
        | inr (found, was_idle, g) ↦
            let now : update s.unparker i (unpark t s.atomic).pc i ≡ locking_at s.addr =
              ground arith in
            record {
              no_limits = inv.no_limits;
              no_fault = inv.no_fault;
              address = inv.address;
              who = some i;
              only = λ j busy. elim (ℕ_discrete i j) [
                | yes same ↦ ap some same
                | no other ↦ absurd (ground (arith, inv.only j, active_lem s.unparker j inv.who))
              ];
              holds = rw now (rw was_idle at inv.holds);
              agrees = rw now g;
            }
      ]
    where
      u : UnparkPc
      u = active s.unparker inv.who

  -- The thread in `park` moves, and no thread in `unpark`.
  parker-Inv :
      {s : System}
      → Inv t s
      → (a : ℕ) (pc : ParkPc) (addr : ℕ) (m : Mutex) → IsAddress t addr
      → ((u : UnparkPc)
          → Holds s.mutex u
          → Agrees s.addr s.atomic s.mutex s.parker u
          → Holds m u × Agrees addr a m pc u)
      → Inv t (record s { atomic = a; parker = pc; addr = addr; mutex = m })
  parker-Inv {s} inv a pc addr m ok keep =
      let (h, g) = keep (active s.unparker inv.who) inv.holds inv.agrees in
      record {
        no_limits = inv.no_limits;
        no_fault = inv.no_fault;
        address = ok;
        who = inv.who;
        only = inv.only;
        holds = h;
        agrees = g;
      }

  -- A busy thread in `unpark` moves, and may move the one in `park`.
  unparker-Inv :
      {s : System}
      → Inv t s
      → (i : ℕ) (p q : UnparkPc) → s.unparker i ≡ p
      → p ≢ idle
      → (a : ℕ) (pc : ParkPc) (m : Mutex)
      → (Holds s.mutex p
          → Agrees s.addr s.atomic s.mutex s.parker p
          → Holds m q × Agrees s.addr a m pc q)
      → Inv t (record s { atomic = a; parker = pc; unparker = update s.unparker i q; mutex = m })
  unparker-Inv {s} inv i p q e busy a pc m keep =
      let who = inv.only i (λ z. busy (sym e ∙ z)) in
      let now = active_lem s.unparker i inv.who who ∙ e in
      let after = active-update_self s.unparker i q inv.who who in
      let (h, g) = keep (rw now at inv.holds) (rw now at inv.agrees) in
      record {
        no_limits = inv.no_limits;
        no_fault = inv.no_fault;
        address = inv.address;
        who = inv.who;
        only = λ j b. elim (ℕ_discrete i j) [
          | yes same ↦ who ∙ ap some same
          | no other ↦ inv.only j (ground arith)
        ];
        holds = rw after h;
        agrees = rw after g;
      }

  Agrees-alive :
      (addr a : ℕ) (m : Mutex) (pc : ParkPc) (u : UnparkPc) (p : ℕ)
      → Agrees addr a m pc u
      → Uses u p
      → (lives pc ≡ true) × (addr ≡ p)
  Agrees-alive addr a m (entering untimed) u p g uses = ground arith
  Agrees-alive addr a m pc u p g uses = ground arith

  -- The pointer of a busy thread is good.
  alive_lem :
      {s : System} (i p : ℕ)
      → Inv t s
      → (q : UnparkPc) → s.unparker i ≡ q
      → Uses q p
      → alive s p ≡ true
  alive_lem {s} i p inv q e uses =
      let busy : s.unparker i ≢ idle = λ z. ground arith in
      let now = active_lem s.unparker i inv.who (inv.only i busy) ∙ e in
      ground (arith, Agrees-alive s.addr s.atomic s.mutex s.parker q p (rw now at inv.agrees) uses)

  -- Every step keeps the invariant.
  pub Step-Inv : {s u : System} → Step t debug s u → Inv t s → Inv t u
  unfolding signal clear_ptr
  Step-Inv {s} (call_park limit a e ok allowed) inv =
      parker-Inv inv s.atomic (locking limit) a free ok (λ u h g. ground arith)
  Step-Inv {s} (park_locks {limit} e unlocked) inv =
      parker-Inv inv s.atomic (loading limit) s.addr by_parker inv.address (λ u h g. ground arith)
  Step-Inv {s} park_accesses inv =
      parker-Inv inv _ _ s.addr s.mutex inv.address
        (λ u h g. (h, parks-Agrees t size debug s.atomic s.mutex s.parker u inv.address h g))
  Step-Inv {s} (park_blocks {w} e) inv =
      parker-Inv inv s.atomic (blocked w) s.addr free inv.address (λ u h g. ground arith)
  Step-Inv {s} wakes_early inv =
      parker-Inv inv s.atomic (signal s.parker) s.addr s.mutex inv.address (λ u h g. ground arith)
  Step-Inv {s} (park_relocks {w} e unlocked) inv =
      parker-Inv inv s.atomic (woken w) s.addr by_parker inv.address (λ u h g. ground arith)
  Step-Inv {s} (park_unlocks e) inv =
      parker-Inv inv s.atomic destroying s.addr free inv.address (λ u h g. ground arith)
  Step-Inv {s} (park_destroys e) inv =
      parker-Inv inv s.atomic finishing s.addr s.mutex inv.address (λ u h g. ground arith)
  Step-Inv (call_unpark i e) inv = unparks-Inv i e inv
  Step-Inv {s} (unpark_locks i {p} e ok unlocked) inv =
      unparker-Inv inv i (locking_at p) (holding p) e (λ z. cc) s.atomic s.parker by_unparker
        (λ h g. ground arith)
  Step-Inv {s} (unpark_clears i {p} e) inv =
      unparker-Inv inv i (holding p) (signalling p) e (λ z. cc) (clear_ptr t s.atomic) s.parker
        s.mutex
        (λ h g. ground (arith, ptr_lem t size inv.address, and_not_ptr_bits t size s.atomic))
  Step-Inv {s} (unpark_signals i {p} e ok) inv =
      unparker-Inv inv i (signalling p) (releasing p) e (λ z. cc) s.atomic (signal s.parker) s.mutex
        (λ h g. ground arith)
  Step-Inv {s} (unpark_unlocks i {p} e ok) inv =
      unparker-Inv inv i (releasing p) idle e (λ z. cc) s.atomic s.parker free (λ h g. ground arith)
  Step-Inv {s} (dangles i p uses gone) inv =
      absurd (false≢true (sym gone ∙ alive_lem i p inv (s.unparker i) refl uses))

  pub Reach-Inv : {s : System} → Reach t debug false s → Inv t s
  Reach-Inv (start a ok) = record {
    no_limits = refl;
    no_fault = refl;
    address = ok;
    who = none;
    only = λ i busy. absurd (busy refl);
    holds = λ z. cc;
    agrees = (omega arith, refl);
  }
  Reach-Inv (later r st) = Step-Inv st (Reach-Inv r)
