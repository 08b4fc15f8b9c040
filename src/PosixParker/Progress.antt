-- ===== src/PosixParker/Progress.antt =====
-- A notified thread in `park` returns, by the calls of `park` and `unpark` that are under way: no
-- new call, no spurious wakeup and no timeout is needed.
use valet_parking.Prelude.{
  ℕ, ◌≤◌, ◌≡◌, ◌≢◌, Bool, true, false, arith, refl, ℕ_discrete, ◌+◌, ◌∙◌, sym, inl, inr, ◌⊎◌,
}
use valet_parking.Word.{Target, shr_usize}
use valet_parking.PosixParker.{
  ParkPc, untimed, outside, entering, blocked, relocking, woken, unlocking, finishing, UnparkPc,
  idle, locking_at, holding, signalling, releasing, park,
}
use valet_parking.PosixParker.System.{
  System, Mutex, free, Step, call_park, park_accesses, park_blocks, wakes_early, park_relocks,
  park_unlocks, park_destroys, call_unpark, unpark_locks, unpark_clears, unpark_signals,
  unpark_unlocks, dangles,
}
use valet_parking.PosixParker.Words.{and_mask, and_not_notify, ptr_lem, field-half}
use valet_parking.Reserved.Fields.{field-pos}
use valet_parking.PosixParker.Invariant.{Inv, active_lem, Agrees, Holds}
use valet_parking.PosixParker.Steps.{Step-Inv}

module _ (t : Target) (debug : Bool) where
  -- The steps of calls that are under way.
  abbrev pub is_own : {s u : System} → Step t debug s u → Bool
  is_own (call_park limit a e ok allowed) = false
  is_own (call_unpark i e) = false
  is_own wakes_early = false
  is_own (dangles i p uses gone) = false
  is_own st = true

  pub data Run : System → System → Type 0 where
    done : (s : System) → Run s s
    next : {s u v : System} (st : Step t debug s u) → is_own st ≡ true → Run u v → Run s v

  abbrev pub Completes : System → Type 0
  Completes s = (u : System) × Run s u × (u.parker ≡ outside) × (u.atomic ≡ 0)

  first-Completes :
      {s u : System} (st : Step t debug s u) → is_own st ≡ true → Completes u → Completes s
  first-Completes st own (v, run, out, clear) = (v, next st own run, out, clear)

-- Where the thread in `park` is, while one in `unpark` has the mutex.
released :
    (pc : ParkPc) (addr a : ℕ) (m : Mutex) (p : ℕ)
    → Holds m (releasing p)
    → Agrees addr a m pc (releasing p)
    → (pc ≡ relocking untimed) × (a ≡ 1) × (addr ≡ p)
released (relocking untimed) addr a m p h g = ground arith
released pc addr a m p h g = absurd (ground arith)

-- The thread in `park` waits, or is about to end its wait.
abbrev Sleeps : ParkPc → Type 0
Sleeps pc = (pc ≡ blocked untimed) ⊎ (pc ≡ relocking untimed)

held_up :
    (pc : ParkPc) (addr a : ℕ) (m : Mutex) (p : ℕ)
    → Holds m (signalling p)
    → Agrees addr a m pc (signalling p)
    → Sleeps pc × (a ≡ 1) × (addr ≡ p)
held_up (blocked untimed) addr a m p h g = (inl refl, g.0.0, sym g.0.1)
held_up (relocking untimed) addr a m p h g = (inr refl, g.0.0, sym g.0.1)
held_up pc addr a m p h g = absurd (ground arith)

about_to_lock :
    (pc : ParkPc) (addr a : ℕ) (m : Mutex) (p : ℕ)
    → Holds m (locking_at p)
    → Agrees addr a m pc (locking_at p)
    → ((Sleeps pc × (m ≡ free)) ⊎ (pc ≡ entering untimed) ⊎ (pc ≡ woken untimed))
      × (a ≡ shr_usize addr 5 + 1)
      × (addr ≡ p)
about_to_lock (blocked untimed) addr a m p h g = (inl (inl refl, ground arith), g.0.0, sym g.0.1)
about_to_lock (relocking untimed) addr a m p h g = (inl (inr refl, ground arith), g.0.0, sym g.0.1)
about_to_lock (entering untimed) addr a m p h g = (inr (inl refl), g.0.0, sym g.0.1)
about_to_lock (woken untimed) addr a m p h g = (inr (inr refl), g.0.0, sym g.0.1)
about_to_lock pc addr a m p h g = absurd (ground arith)

module _ (t : Target) (size : 1 ≤ t.usize_bytes) (debug : Bool) where
  pub advance-Completes :
      {s u : System} (st : Step t debug s u)
      → is_own t debug st ≡ true
      → Inv t s
      → (Inv t u → Completes t debug u)
      → Completes t debug s
  advance-Completes st own inv rest =
      first-Completes t debug st own (rest (Step-Inv t size debug st inv))

  pub finishing-Completes : {s : System} → Inv t s → s.parker ≡ finishing → Completes t debug s
  unfolding park
  finishing-Completes {s} inv e = (
    _,
    next park_accesses refl (done _),
    ground arith,
    ground (arith, inv.agrees, and_not_notify t size 1, field-pos t size, field-half t size),
  )

  pub unlocking-Completes : {s : System} → Inv t s → s.parker ≡ unlocking → Completes t debug s
  unlocking-Completes inv e = advance-Completes (park_unlocks e) refl inv λ inv'.
      advance-Completes (park_destroys refl) refl inv' λ inv''. finishing-Completes inv'' refl

  pub woken-Completes :
      {s : System} → Inv t s → s.parker ≡ woken untimed → s.atomic ≡ 1 → Completes t debug s
  unfolding park
  woken-Completes inv e n = advance-Completes park_accesses refl inv λ inv'.
      unlocking-Completes inv'
        (ground (arith, and_mask t size 1, field-pos t size, field-half t size))

  pub relocking-Completes :
      {s : System}
      → Inv t s
      → s.parker ≡ relocking untimed
      → s.atomic ≡ 1
      → s.mutex ≡ free
      → Completes t debug s
  relocking-Completes inv e n unlocked =
      advance-Completes (park_relocks e unlocked) refl inv λ inv'. woken-Completes inv' refl n

  -- The word, the mutex and the thread in `park` as a thread in `unpark` finds them.
  busy_facts :
      {s : System}
      → Inv t s
      → (i : ℕ) (q : UnparkPc) → s.unparker i ≡ q
      → q ≢ idle
      → Holds s.mutex q × Agrees s.addr s.atomic s.mutex s.parker q
  busy_facts {s} inv i q e busy =
      let now = active_lem s.unparker i inv.who (inv.only i (λ z. busy (sym e ∙ z))) ∙ e in
      (rw now at inv.holds, rw now at inv.agrees)

  releasing-Completes :
      {s : System} (i p : ℕ) → Inv t s → s.unparker i ≡ releasing p → Completes t debug s
  releasing-Completes {s} i p inv e =
      let facts = busy_facts inv i (releasing p) e (λ z. cc) in
      let at = released s.parker s.addr s.atomic s.mutex p facts.0 facts.1 in
      advance-Completes (unpark_unlocks i e (ground arith)) refl inv
        λ inv'. relocking-Completes inv' at.0 at.1 refl

  signalling-Completes :
      {s : System} (i p : ℕ) → Inv t s → s.unparker i ≡ signalling p → Completes t debug s
  unfolding ℕ_discrete
  signalling-Completes {s} i p inv e =
      let facts = busy_facts inv i (signalling p) e (λ z. cc) in
      let at = held_up s.parker s.addr s.atomic s.mutex p facts.0 facts.1 in
      advance-Completes (unpark_signals i e (ground arith)) refl inv
        λ inv'. releasing-Completes i p inv' (ground arith)

  holding-Completes :
      {s : System} (i p : ℕ) → Inv t s → s.unparker i ≡ holding p → Completes t debug s
  holding-Completes i p inv e =
      advance-Completes (unpark_clears i e) refl inv
        λ inv'. signalling-Completes i p inv' (ground arith)

  locking_asleep-Completes :
      {s : System} (i p : ℕ)
      → Inv t s
      → s.unparker i ≡ locking_at p
      → Sleeps s.parker
      → s.mutex ≡ free
      → s.addr ≡ p
      → Completes t debug s
  locking_asleep-Completes {s} i p inv e asleep unlocked here =
      advance-Completes (unpark_locks i e (ground arith) unlocked) refl inv
        λ inv'. holding-Completes i p inv' (ground arith)

  locking_entering-Completes :
      {s : System} (i p : ℕ)
      → Inv t s
      → s.unparker i ≡ locking_at p
      → s.parker ≡ entering untimed
      → s.addr ≡ p
      → Completes t debug s
  locking_entering-Completes i p inv e enters here =
      advance-Completes (park_blocks enters) refl inv
        λ inv'. locking_asleep-Completes i p inv' e (inl refl) refl here

  locking_woken-Completes :
      {s : System} (i p : ℕ)
      → Inv t s
      → s.unparker i ≡ locking_at p
      → s.parker ≡ woken untimed
      → s.atomic ≡ shr_usize s.addr 5 + 1
      → s.addr ≡ p
      → Completes t debug s
  unfolding park
  locking_woken-Completes {s} i p inv e wakes word here =
      advance-Completes park_accesses refl inv λ inv'.
        locking_entering-Completes i p inv' e
          (ground (arith, and_mask t size s.atomic, ptr_lem t size inv.address)) here

  locking_at-Completes :
      {s : System} (i p : ℕ) → Inv t s → s.unparker i ≡ locking_at p → Completes t debug s
  locking_at-Completes {s} i p inv e =
      let facts = busy_facts inv i (locking_at p) e (λ z. cc) in
      let at = about_to_lock s.parker s.addr s.atomic s.mutex p facts.0 facts.1 in
      elim at.0 [
        | inl (asleep, unlocked) ↦ locking_asleep-Completes i p inv e asleep unlocked at.2
        | inr (inl enters) ↦ locking_entering-Completes i p inv e enters at.2
        | inr (inr wakes) ↦ locking_woken-Completes i p inv e wakes at.1 at.2
      ]

  pub busy-Completes :
      {s : System} (i : ℕ) (q : UnparkPc)
      → Inv t s
      → s.unparker i ≡ q
      → q ≢ idle
      → Completes t debug s
  busy-Completes i idle inv e busy = absurd (busy refl)
  busy-Completes i (locking_at p) inv e busy = locking_at-Completes i p inv e
  busy-Completes i (holding p) inv e busy = holding-Completes i p inv e
  busy-Completes i (signalling p) inv e busy = signalling-Completes i p inv e
  busy-Completes i (releasing p) inv e busy = releasing-Completes i p inv e
