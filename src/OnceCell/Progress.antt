-- ===== src/OnceCell/Progress.antt =====
-- Once a cell is ready, every call of `get_or_init` returns its value.
use valet_parking.Prelude.{
  ℕ, ◌≤◌, ◌≡◌, ◌≢◌, Bool, true, false, Option, none, some, refl, arith, inl, inr, ◌∙◌,
}
use valet_parking.Prelude.Family.{update}
use valet_parking.Word.{Target}
use valet_parking.Contract as Waiters
use valet_parking.Contract.Agreement.{update_there}
use valet_parking.OnceCell.{
  Pc, outside, getting, reading, loading, matching, writing, waking, storing, asserting, sleeping,
  waiting, reloading, unwrapping, unwrapping_cell, returned, panicked, running, complete, access,
  read,
}
use valet_parking.OnceCell.System.{System, Step, accessing, reading_cell, storing_returns}
use valet_parking.OnceCell.Invariant.{ready, At, Seen}
use valet_parking.OnceCell.Words.{running-pos, pub_bits-complete}
use valet_parking.OnceCell.Loop.{
  is_own, Run, done, next, then-Run, IsAt, bare-Reads, Loops, arrives, reloading-Loops, left-Loops,
  waiting-Loops, sleeping-Loops, running-Loops,
}

-- The calls under way lead to a state in which the call of thread `i` has returned what is in the
-- cell.
abbrev pub Finishes {ℓ} : {A : Type ℓ} → Target → ℕ → System A → Type ℓ
Finishes {A = A} t i s =
    (u : System A) × Run t s u × (v : A) × (u.pc i ≡ returned (some v)) × (u.value ≡ some v)

-- A call of `get_or_init` is under way.
abbrev pub asks {ℓ} : {A : Type ℓ} → Pc A → Bool
asks outside = false
asks (getting none) = false
asks (reading none) = false
asks (returned result) = false
asks panicked = false
asks pc = true

module _ {ℓ} {A : Type ℓ} (t : Target) (size : 1 ≤ t.usize_bytes) (i : ℕ) where
  first-Finishes :
      {s u : System A} (step : Step t s u) → is_own t step ≡ true → Finishes t i u → Finishes t i s
  first-Finishes step own (u, run, v, out, held) = (u, next step own run, v, out, held)

  module _ (c : A) where
    -- The cell is ready, and no reserved bit is set.
    abbrev pub IsReady : System A → Type ℓ
    IsReady s = IsAt (complete t) s × (s.value ≡ some c)

    -- One access, and the rest.
    accesses-Finishes :
        (s : System A) (pc : Pc A) (after : Pc A)
        → IsReady s
        → s.pc i ≡ pc
        → access t (complete t) pc ≡ record { exchanges = false; pc = after }
        → Finishes t i (record s { pc = update s.pc i after })
        → Finishes t i s
    accesses-Finishes s pc after is w e rest =
        first-Finishes
          (accessing i (complete t)
            (bare-Reads t size (complete t) (pub_bits-complete t size) s is.0))
          refl (rw w (rw e rest))

    -- The last read.
    reads-Finishes :
        (s : System A) (pc : Pc A)
        → IsReady s
        → s.pc i ≡ pc
        → read (some c) pc ≡ returned (some c)
        → Finishes t i s
    reads-Finishes s pc is w e = first-Finishes (reading_cell i) refl (
      record s { pc = update s.pc i (read s.value (s.pc i)) },
      done _,
      c,
      update_there s.pc i _ ∙ rw is.1 (rw w e),
      is.1,
    )

    unwrapping_cell-Finishes :
        (s : System A) → IsReady s → s.pc i ≡ unwrapping_cell → Finishes t i s
    unfolding read
    unwrapping_cell-Finishes s is w = reads-Finishes s unwrapping_cell is w refl

    reading-Finishes :
        (s : System A) (init : Option A) → IsReady s → s.pc i ≡ reading init → Finishes t i s
    unfolding read
    reading-Finishes s init is w = reads-Finishes s (reading init) is w refl

    unwrapping-Finishes : (s : System A) → IsReady s → s.pc i ≡ unwrapping → Finishes t i s
    unfolding access
    unwrapping-Finishes s is w =
        accesses-Finishes s unwrapping unwrapping_cell is w (ground arith)
          (unwrapping_cell-Finishes _ is (update_there s.pc i _))

    asserting-Finishes : (s : System A) → IsReady s → s.pc i ≡ asserting → Finishes t i s
    unfolding access
    asserting-Finishes s is w =
        accesses-Finishes s asserting unwrapping is w (ground (arith, pub_bits-complete t size))
          (unwrapping-Finishes _ is (update_there s.pc i _))

    getting-Finishes :
        (s : System A) (init : Option A) → IsReady s → s.pc i ≡ getting init → Finishes t i s
    unfolding access
    getting-Finishes s init is w =
        accesses-Finishes s (getting init) (reading init) is w (ground arith)
          (reading-Finishes _ init is (update_there s.pc i _))

    -- The loop, once it has seen that the cell is complete.
    complete-Finishes :
        (s : System A) (v : A) → IsReady s → s.pc i ≡ matching v (complete t) → Finishes t i s
    unfolding access
    complete-Finishes s v is w =
        accesses-Finishes s (matching v (complete t)) unwrapping is w (ground arith)
          (unwrapping-Finishes _ is (update_there s.pc i _))

    apart : complete t ≢ running t
    apart e = omega (arith, e, running-pos t size)

    looped-Finishes :
        (s : System A) (v : A)
        → IsReady s
        → Loops t size (complete t) (pub_bits-complete t size) apart i v s
        → Finishes t i s
    looped-Finishes s v is (u, run, at, now, value) =
        let (last, rest, result, out, held) = complete-Finishes u v (now, value ∙ is.1) at in
        (last, then-Run t run rest, result, out, held)

    storing-Finishes :
        (s : System A)
        → IsReady s
        → s.pc i ≡ storing
        → s.waiters.pc i ≡ Waiters.leaving
        → Finishes t i s
    storing-Finishes s is w here =
        first-Finishes (storing_returns i w (Waiters.return i here)) refl
          (asserting-Finishes _ is (update_there s.pc i _))

    matching-Finishes :
        (s : System A) (v : A) (a : ℕ)
        → IsReady s
        → s.pc i ≡ matching v a
        → s.waiters.pc i ≡ Waiters.idle
        → Seen t ready a
        → Finishes t i s
    unfolding access
    matching-Finishes s v a is w here (inl zero) = looped-Finishes s v is (
        arrives t size (complete t) (pub_bits-complete t size) apart i v s (matching v a) is.0 w
          (ground (arith, running-pos t size)))
    matching-Finishes s v a is w here (inr (inl bits)) = looped-Finishes s v is (
        running-Loops t size (complete t) (pub_bits-complete t size) apart i v s a is.0 w bits here)
    matching-Finishes s v a is w here (inr (inr (same, _))) =
        complete-Finishes s v is (rw same at w)

    pub ready-Finishes :
        (s : System A) (pc : Pc A)
        → IsReady s
        → s.pc i ≡ pc
        → At t (some c) ready i pc (s.waiters.pc i)
        → asks pc ≡ true
        → Finishes t i s
    unfolding access
    ready-Finishes s (getting (some v)) is w at asked = getting-Finishes s (some v) is w
    ready-Finishes s (reading (some v)) is w at asked = reading-Finishes s (some v) is w
    ready-Finishes s (loading v) is w at asked =
        looped-Finishes s v is (
          arrives t size (complete t) (pub_bits-complete t size) apart i v s (loading v) is.0 w
            refl)
    ready-Finishes s (matching v a) is w (here, seen, _) asked =
        matching-Finishes s v a is w here seen
    ready-Finishes s (writing v) is w (here, mine, _) asked = cc
    ready-Finishes s waking is w (here, mine, _, _) asked = cc
    ready-Finishes s storing is w (inl (here, mine, _), _) asked = cc
    ready-Finishes s storing is w (inr (here, _), _) asked = storing-Finishes s is w here
    ready-Finishes s asserting is w at asked = asserting-Finishes s is w
    ready-Finishes s (sleeping v) is w (here, _) asked =
        looped-Finishes s v is
          (sleeping-Loops t size (complete t) (pub_bits-complete t size) apart i v s is.0 w here)
    ready-Finishes s (waiting v) is w (inl same, _) asked = looped-Finishes s v is (
        waiting-Loops t size (complete t) (pub_bits-complete t size) apart i v s (s.waiters.pc i)
          is.0 w refl same)
    ready-Finishes s (waiting v) is w (inr here, _) asked =
        looped-Finishes s v is
          (left-Loops t size (complete t) (pub_bits-complete t size) apart i v s is.0 w here)
    ready-Finishes s (reloading v) is w at asked =
        looped-Finishes s v is
          (reloading-Loops t size (complete t) (pub_bits-complete t size) apart i v s is.0 w)
    ready-Finishes s unwrapping is w at asked = unwrapping-Finishes s is w
    ready-Finishes s unwrapping_cell is w at asked = unwrapping_cell-Finishes s is w
    ready-Finishes s pc is w at asked = absurd (ground arith)
