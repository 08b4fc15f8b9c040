-- ===== src/OnceCell/Loop.antt =====
-- The loop of `init` comes to the state that the atomic has.
use valet_parking.Prelude.{
  ℕ, ◌≤◌, ◌≡◌, ◌≢◌, Bool, true, false, ◌==◌, refl, arith, inr, sym, ◌∙◌, ap,
}
use valet_parking.Word.{Target}
use valet_parking.Contract as Waiters
use valet_parking.Contract.Agreement.{Reads, WaitsFor, update_there}
use valet_parking.OnceCell.{
  Pc, matching, sleeping, waiting, reloading, incomplete, running, complete, pub_bits, access,
}
use valet_parking.OnceCell.System.{
  System, Step, call, accessing, waiting_calls, inside, waiting_returns,
}
use valet_parking.OnceCell.Words.{running-pos, running_apart, pub_bits-incomplete}

module _ {ℓ} {A : Type ℓ} (t : Target) where
  -- A step of a call that is under way.
  abbrev pub is_own : {s u : System A} → Step t s u → Bool
  is_own (call i init rest) = false
  is_own step = true

  pub data Run : System A → System A → Type ℓ where
    done : (s : System A) → Run s s
    next : {s u v : System A} (step : Step t s u) → is_own step ≡ true → Run u v → Run s v

  pub then-Run : {s u v : System A} → Run s u → Run u v → Run s v
  then-Run (done s) rest = rest
  then-Run (next step own run) rest = next step own (then-Run run rest)

-- What the atomic reads, with no reserved bit.
abbrev pub IsAt {ℓ} : {A : Type ℓ} → (word : ℕ) → System A → Type 0
IsAt word s = (s.waiters.value ≡ word) × (s.waiters.marked ≡ false)

module _ {ℓ} {A : Type ℓ} (t : Target) (size : 1 ≤ t.usize_bytes) (word : ℕ)
    (public : pub_bits t word ≡ word) where
  pub bare-Reads : (s : System A) → IsAt word s → Reads t s.waiters word
  bare-Reads s is = (public ∙ sym is.0, λ bare. sym is.0)

  module _ (other : word ≢ running t) (i : ℕ) (v : A) where
    -- A run of the calls under way that leaves the cell as it is.
    abbrev pub Loops : System A → Type ℓ
    Loops s =
        (u : System A) × Run t s u × (u.pc i ≡ matching v word) × IsAt word u × (u.value ≡ s.value)

    next-Loops :
        {s u : System A} (step : Step t s u)
        → is_own t step ≡ true
        → u.value ≡ s.value
        → Loops u
        → Loops s
    next-Loops step own same (u, run, at, is, value) = (u, next step own run, at, is, value ∙ same)

    pub arrives :
        (s : System A) (pc : Pc A)
        → IsAt word s
        → s.pc i ≡ pc
        → access t word pc ≡ record { exchanges = false; pc = matching v word }
        → Loops s
    arrives s pc is w e =
        next-Loops (accessing i word (bare-Reads s is)) refl refl
          (rw w (rw e (_, done _, update_there s.pc i _, is, refl)))

    pub reloading-Loops : (s : System A) → IsAt word s → s.pc i ≡ reloading v → Loops s
    unfolding access
    reloading-Loops s is w = arrives s (reloading v) is w refl

    pub left-Loops :
        (s : System A)
        → IsAt word s
        → s.pc i ≡ waiting v
        → s.waiters.pc i ≡ Waiters.leaving
        → Loops s
    left-Loops s is w here =
        next-Loops (waiting_returns i w (Waiters.return i here)) refl refl
          (reloading-Loops _ is (update_there s.pc i _))

    pub waiting-Loops :
        (s : System A) (q : Waiters.Pc)
        → IsAt word s
        → s.pc i ≡ waiting v
        → s.waiters.pc i ≡ q
        → WaitsFor (running t) q
        → Loops s
    waiting-Loops s (Waiters.waiting e signalled) is w here same =
        next-Loops (inside (Waiters.leave i here (inr (λ x. other (sym is.0 ∙ x ∙ same))))) refl
          refl (left-Loops _ is w (update_there s.waiters.pc i _))
    waiting-Loops s q is w here same = absurd (ground (arith, same))

    pub sleeping-Loops :
        (s : System A) → IsAt word s → s.pc i ≡ sleeping v → s.waiters.pc i ≡ Waiters.idle → Loops s
    sleeping-Loops s is w here =
        next-Loops (waiting_calls i w (Waiters.call_wait i (running t) here)) refl refl (
          waiting-Loops _ (Waiters.waiting (running t) false) is (update_there s.pc i _)
            (update_there s.waiters.pc i _) refl)

    -- It has seen that another thread initialises the cell.
    pub running-Loops :
        (s : System A) (a : ℕ)
        → IsAt word s
        → s.pc i ≡ matching v a
        → pub_bits t a ≡ running t
        → s.waiters.pc i ≡ Waiters.idle
        → Loops s
    unfolding access
    running-Loops s a is w bits here =
        let not_complete : a ≢ complete t = running_apart t size a bits in
        let not_incomplete : a ≢ incomplete t = λ same.
          omega
            (arith, bits, ap (pub_bits t) same, pub_bits-incomplete t size, running-pos t size) in
        let a' : (a == complete t) ≡ false = ground (arith, not_complete) in
        let b' : (a == incomplete t) ≡ false = ground (arith, not_incomplete) in
        let c' : (pub_bits t a == running t) ≡ true = ground arith in
        next-Loops (accessing i word (bare-Reads s is)) refl refl
          (rw w (rw (a', b', c') (sleeping-Loops _ is (update_there s.pc i _) here)))
