-- ===== src/OnceCell/Liveness.antt =====
-- The thread that initialises the cell completes it, and a thread that asks a fresh cell begins to.
use valet_parking.Prelude.{ℕ, ◌≤◌, ◌≡◌, ◌≢◌, true, false, ◌==◌, some, refl, arith, inl, inr, ◌∙◌}
use valet_parking.Prelude.Family.{update, update_elim}
use valet_parking.Word.{Target}
use valet_parking.Contract as Waiters
use valet_parking.Contract.Agreement.{update_there}
use valet_parking.OnceCell.{
  Pc, getting, reading, loading, matching, writing, waking, storing, asserting, sleeping, waiting,
  reloading, unwrapping, unwrapping_cell, incomplete, running, complete, access,
}
use valet_parking.OnceCell.System.{System, Step, accessing, writing_cell, storing_calls, inside}
use valet_parking.OnceCell.Invariant.{fresh, owned, At, is_owner, Inv}
use valet_parking.OnceCell.Words.{running-pos, pub_bits-incomplete}
use valet_parking.OnceCell.Kept.{Step-Inv}
use valet_parking.OnceCell.Loop.{
  is_own, Run, done, next, then-Run, IsAt, bare-Reads, Loops, arrives, reloading-Loops, left-Loops,
  waiting-Loops, sleeping-Loops, running-Loops,
}
use valet_parking.OnceCell.Progress.{asks}

incomplete_apart : (t : Target) (size : 1 ≤ t.usize_bytes) → incomplete t ≢ running t
incomplete_apart t size e = omega (arith, e, running-pos t size)

module _ {ℓ} {A : Type ℓ} (t : Target) (size : 1 ≤ t.usize_bytes) where
  pub Run-Inv : {s u : System A} → Run t s u → Inv t s → Inv t u
  Run-Inv (done s) inv = inv
  Run-Inv (next step own run) inv = Run-Inv run (Step-Inv t size step inv)

  module _ (i j : ℕ) where
    -- The atomic becomes complete, while thread `i` asks.
    abbrev pub Ends : System A → Type ℓ
    Ends s = (u : System A) × Run t s u × (u.waiters.value ≡ complete t) × (asks (u.pc i) ≡ true)

    next-Ends : {s u : System A} (step : Step t s u) → is_own t step ≡ true → Ends u → Ends s
    next-Ends step own (u, run, value, asked) = (u, next step own run, value, asked)

    still_asks :
        (s : System A) (pc : Pc A)
        → asks pc ≡ true
        → asks (s.pc i) ≡ true
        → asks (update s.pc j pc i) ≡ true
    still_asks s pc here there =
        update_elim (λ x. asks x ≡ true) s.pc j pc i (λ same. here) (λ other. there)

    storing-Ends :
        (s : System A)
        → s.waiters.pc j ≡ Waiters.storing (complete t)
        → asks (s.pc i) ≡ true
        → Ends s
    storing-Ends s here asked =
        next-Ends (inside (Waiters.store j (complete t) here)) refl (_, done _, refl, asked)

    waking-Ends :
        (s : System A)
        → s.pc j ≡ waking
        → s.waiters.pc j ≡ Waiters.idle
        → asks (s.pc i) ≡ true
        → Ends s
    waking-Ends s w here asked =
        next-Ends (storing_calls j w (Waiters.call_store j (complete t) here)) refl
          (storing-Ends _ (update_there s.waiters.pc j _) (still_asks s storing refl asked))

    pub writing-Ends :
        (s : System A) (v : A)
        → s.pc j ≡ writing v
        → s.waiters.pc j ≡ Waiters.idle
        → asks (s.pc i) ≡ true
        → Ends s
    writing-Ends s v w here asked =
        next-Ends (writing_cell j w) refl
          (waking-Ends _ (update_there s.pc j _) here (still_asks s waking refl asked))

    pub owner-Ends :
        (s : System A) (pc : Pc A)
        → s.pc j ≡ pc
        → is_owner pc ≡ true
        → At t s.value (owned j) j pc (s.waiters.pc j)
        → asks (s.pc i) ≡ true
        → Ends s
    owner-Ends s (writing v) w mine (here, _, _) asked = writing-Ends s v w here asked
    owner-Ends s waking w mine (here, _, _, _) asked = waking-Ends s w here asked
    owner-Ends s storing w mine (inl (here, _, _), _) asked = storing-Ends s here asked
    owner-Ends s storing w mine (inr (_, is), _) asked = cc
    owner-Ends s pc w mine at asked = cc

  -- Thread `i` becomes the one that initialises the cell.
  abbrev pub Starts : ℕ → System A → Type ℓ
  Starts i s = (u : System A) × Run t s u × (v : A) × (u.pc i ≡ writing v)

  module _ (i : ℕ) where
    incomplete-Starts :
        (s : System A) (v : A)
        → IsAt (incomplete t) s
        → s.pc i ≡ matching v (incomplete t)
        → Starts i s
    unfolding access
    incomplete-Starts s v is w =
        let a' : (incomplete t == complete t) ≡ false = ground (arith, running-pos t size) in
        let b' : (incomplete t == incomplete t) ≡ true = ground arith in
        let e : access t (incomplete t) (matching v (incomplete t))
            ≡ record { exchanges = true; pc = writing v } =
          rw (a', b') refl in
        (
          _,
          next
              (accessing i (incomplete t)
                (bare-Reads t size (incomplete t) (pub_bits-incomplete t size) s is))
              refl (done _),
          v,
          update_there s.pc i _ ∙ rw w (rw e refl),
        )

    looped-Starts :
        (s : System A) (v : A)
        → Loops t size (incomplete t) (pub_bits-incomplete t size) (incomplete_apart t size) i v s
        → Starts i s
    looped-Starts s v (u, run, at, is, value) =
        let (last, rest, result, begun) = incomplete-Starts u v is at in
        (last, then-Run t run rest, result, begun)

    loading-Starts :
        (s : System A) (v : A) → IsAt (incomplete t) s → s.pc i ≡ loading v → Starts i s
    unfolding access
    loading-Starts s v is w = looped-Starts s v (
        arrives t size (incomplete t) (pub_bits-incomplete t size) (incomplete_apart t size) i v s
          (loading v) is w refl)

    getting-Starts :
        (s : System A) (v : A) → IsAt (incomplete t) s → s.pc i ≡ getting (some v) → Starts i s
    unfolding access
    getting-Starts s v is w =
        let a' : (incomplete t == complete t) ≡ false = ground (arith, running-pos t size) in
        let (last, rest, result, begun) =
          loading-Starts (record s { pc = update s.pc i (loading v) }) v is
            (update_there s.pc i _) in
        (
          last,
          next
              (accessing i (incomplete t)
                (bare-Reads t size (incomplete t) (pub_bits-incomplete t size) s is))
              refl (rw w (rw a' rest)),
          result,
          begun,
        )

    pub fresh-Starts :
        (s : System A) (pc : Pc A)
        → IsAt (incomplete t) s
        → s.pc i ≡ pc
        → At t s.value fresh i pc (s.waiters.pc i)
        → asks pc ≡ true
        → Starts i s
    unfolding access
    fresh-Starts s (getting (some v)) is w at asked = getting-Starts s v is w
    fresh-Starts s (reading init) is w (here, now, _) asked = cc
    fresh-Starts s (loading v) is w at asked = loading-Starts s v is w
    fresh-Starts s (matching v a) is w (here, inl zero, _) asked =
        incomplete-Starts s v is (rw zero at w)
    fresh-Starts s (matching v a) is w (here, inr (inl bits), _) asked = looped-Starts s v (
        running-Loops t size (incomplete t) (pub_bits-incomplete t size) (incomplete_apart t size) i
          v s a is w bits here)
    fresh-Starts s (matching v a) is w (here, inr (inr (_, now)), _) asked = cc
    fresh-Starts s (writing v) is w at asked = (s, done s, v, w)
    fresh-Starts s waking is w (here, mine, _, _) asked = cc
    fresh-Starts s storing is w (inl (here, mine, _), _) asked = cc
    fresh-Starts s storing is w (inr (here, now), _) asked = cc
    fresh-Starts s asserting is w (here, now, _) asked = cc
    fresh-Starts s (sleeping v) is w (here, _) asked = looped-Starts s v (
        sleeping-Loops t size (incomplete t) (pub_bits-incomplete t size) (incomplete_apart t size)
          i v s is w here)
    fresh-Starts s (waiting v) is w (inl same, _) asked = looped-Starts s v (
        waiting-Loops t size (incomplete t) (pub_bits-incomplete t size) (incomplete_apart t size) i
          v s (s.waiters.pc i) is w refl same)
    fresh-Starts s (waiting v) is w (inr here, _) asked = looped-Starts s v (
        left-Loops t size (incomplete t) (pub_bits-incomplete t size) (incomplete_apart t size) i v
          s is w here)
    fresh-Starts s (reloading v) is w at asked = looped-Starts s v (
        reloading-Loops t size (incomplete t) (pub_bits-incomplete t size) (incomplete_apart t size)
          i v s is w)
    fresh-Starts s unwrapping is w (here, now, _) asked = cc
    fresh-Starts s unwrapping_cell is w (here, now, _) asked = cc
    fresh-Starts s pc is w at asked = absurd (ground arith)
