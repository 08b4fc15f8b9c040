-- ===== src/PosixWaiters/Running.antt =====
-- Runs of calls that are under way, and how those of one Parker are made by the whole.
use valet_parking.Prelude.{ℕ, ◌%◌, ◌≤◌, ◌≡◌, Bool, true, false, refl, arith, inl, inr}
use valet_parking.Prelude.{Bool-cases, ◌==◌}
use valet_parking.Prelude.Family.{update, update_same}
use valet_parking.Prelude.Bits.{bit_and-one}
use valet_parking.Word.{Target}
use valet_parking.WaiterQueue.System as Queue
use valet_parking.PosixParker.{is_outside, outside, idle}
use valet_parking.PosixParker.System as Parker
use valet_parking.PosixParker.Progress as ParkerRun
use valet_parking.PosixParker.Liveness.{notified_posix_park_returns}
use valet_parking.Contract.Agreement.{update_twice, update_there}
use valet_parking.PosixWaiters.System.{System, is_call, Step, listing, parking}
use valet_parking.PosixWaiters.Parking.{busy_lem}
use valet_parking.PosixWaiters.Invariant.{Inv, Step-Inv}
use valet_parking.PosixWaiters.Safety.{parker-Inv, idle-cases}

-- The state with another Parker in the node of thread `k`.
abbrev pub replaced : System → ℕ → Parker.System → System
replaced s k p = record s { parker = update s.parker k p }

-- No thread is in a call of `unpark` on this Parker.
abbrev pub IsQuiet : Parker.System → Type 0
IsQuiet p = (i : ℕ) → p.unparker i ≡ idle

module _ (t : Target) (debug : Bool) where
  -- No call, spurious wakeup or use of memory that is gone.
  abbrev pub is_own : {s u : System} → Step t debug s u → Bool
  is_own (listing (Queue.own o) alone free) = true
  is_own (listing step alone free) = false
  is_own (parking k step inner) = ParkerRun.is_own t debug step
  is_own step = true

  pub data Run : System → System → Type 0 where
    done : (s : System) → Run s s
    next : {s u v : System} (step : Step t debug s u) → is_own step ≡ true → Run u v → Run s v

  pub then-Run : {s u v : System} → Run s u → Run u v → Run s v
  then-Run (done s) later = later
  then-Run (next step own run) later = next step own (then-Run run later)

  own-inner :
      {p r : Parker.System} (step : Parker.Step t debug p r)
      → ParkerRun.is_own t debug step ≡ true
      → is_call t debug step ≡ false
  own-inner (Parker.call_park limit a w ok may) own = cc
  own-inner (Parker.call_unpark i w) own = cc
  own-inner (Parker.park_locks w m) own = refl
  own-inner Parker.park_accesses own = refl
  own-inner (Parker.park_blocks w) own = refl
  own-inner Parker.wakes_early own = refl
  own-inner (Parker.park_relocks w m) own = refl
  own-inner (Parker.park_unlocks w) own = refl
  own-inner (Parker.park_destroys w) own = refl
  own-inner (Parker.unpark_locks i w live m) own = refl
  own-inner (Parker.unpark_clears i w) own = refl
  own-inner (Parker.unpark_signals i w live) own = refl
  own-inner (Parker.unpark_unlocks i w live) own = refl
  own-inner (Parker.dangles i p used gone) own = refl

  -- A step from a Parker that equals the one in the node.
  from-Step :
      {p q r : Parker.System}
      → q ≡ p
      → (step : Parker.Step t debug p r) → ParkerRun.is_own t debug step ≡ true
      → (same : Parker.Step t debug q r) × (ParkerRun.is_own t debug same ≡ true)
  from-Step e step own = rw e (step, own)

  parking-Run :
      (s : System) (k : ℕ) {p r : Parker.System}
      → ParkerRun.Run t debug p r
      → Run (replaced s k p) (replaced s k r)
  parking-Run s k (ParkerRun.done p) = done (replaced s k p)
  parking-Run s k {p} {r} (ParkerRun.next {u = q} step own run) =
      let (same, own') = from-Step (update_there s.parker k p) step own in
      let twice = update_twice s.parker k p q in
      next (parking k same (own-inner same own')) own' (rw twice (parking-Run s k run))

  pub Run-Inv : (size : 1 ≤ t.usize_bytes) {s u : System} → Run s u → Inv t debug s → Inv t debug u
  Run-Inv size (done s) inv = inv
  Run-Inv size (next step own run) inv = Run-Inv size run (Step-Inv t size debug step inv)

module _ (t : Target) (size : 1 ≤ t.usize_bytes) (debug : Bool) where
  -- The calls on the Parker of thread `k` end: `park` by its return, or `unpark`.
  pub outside-IsQuiet :
      {s : System} (k : ℕ)
      → Inv t debug s
      → is_outside (s.parker k).parker ≡ true
      → IsQuiet (s.parker k)
  outside-IsQuiet {s} k inv out i = elim (idle-cases ((s.parker k).unparker i)) [
    | inl at_rest ↦ at_rest
    | inr busy ↦
        absurd (ground (arith, busy_lem t size debug i (parker-Inv t size debug k inv) busy))
  ]

  pub park_ends :
      {s : System} (k : ℕ)
      → Inv t debug s
      → (s.parker k).atomic % 2 ≡ 1
      → is_outside (s.parker k).parker ≡ false
      → (p : Parker.System) × Run t debug s (replaced s k p) × (p.parker ≡ outside) × IsQuiet p
  park_ends {s} k inv notified inside =
      let (p, run, out, clear) =
        notified_posix_park_returns t size debug (inv.parkers k)
          (ground (arith, bit_and-one (s.parker k).atomic)) (λ e. ground arith) in
      let whole : Run t debug s (replaced s k p) =
        rw (update_same s.parker k) at (parking-Run t debug s k run) in
      let here = update_there s.parker k p in
      let quiet : IsQuiet (update s.parker k p k) =
        outside-IsQuiet k (Run-Inv t debug size whole inv) (rw here (rw out refl)) in
      (p, whole, out, rw here at quiet)

  pub unpark_ends :
      {s : System} (k : ℕ)
      → Inv t debug s
      → (p : Parker.System) × Run t debug s (replaced s k p) × IsQuiet p
  unpark_ends {s} k inv = elim (Bool-cases (is_outside (s.parker k).parker)) [
    | inl out ↦ (s.parker k, rw (update_same s.parker k) (done s), outside-IsQuiet k inv out)
    | inr inside ↦ elim (Bool-cases ((s.parker k).atomic % 2 == 1)) [
      | inl odd ↦
          let (p, run, out, quiet) = park_ends k inv (ground arith) inside in (p, run, quiet)
      | inr even ↦ (
        s.parker k,
        rw (update_same s.parker k) (done s),
        λ i. elim (idle-cases ((s.parker k).unparker i)) [
          | inl at_rest ↦ at_rest
          | inr busy ↦
              absurd (ground (arith, busy_lem t size debug i (parker-Inv t size debug k inv) busy))
        ],
      )
    ]
  ]
