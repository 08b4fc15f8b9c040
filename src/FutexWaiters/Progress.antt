-- ===== src/FutexWaiters/Progress.antt =====
-- How a thread that waits over a futex gets to its return.
use valet_parking.Prelude.{ℕ, ◌≡◌, ◌≢◌, inl, inr, bit_or, arith, ◌∙◌, ap, refl}
use valet_parking.Word.{Target, IsTarget}
use valet_parking.Reserved.{IsFree}
use valet_parking.FutexWaiters.{
  Pc, outside, marking, waiting, asleep, checking, waking, has_waiters, pub_bits, get_i32_ref,
  compared, compare_and_wait, woken,
}
use valet_parking.FutexWaiters.System.{System, compares, wakes, Reach}
use valet_parking.FutexWaiters.Words.{
  IsWhole, flagged_lem, pub_bits-flagged, pub_bits-free, compared-free, compared-whole,
}
use valet_parking.FutexWaiters.Invariant.{IsMarked}
use valet_parking.FutexWaiters.Steps.{Reach-Inv}
use valet_parking.FutexWaiters.Safety.{whole_sleeper_is_current}

-- A run of calls that are under way.
pub data Run (t : Target) : System → System → Type 0 where
  done : (s : System) → Run t s s
  compare : {s u : System} (i : ℕ) → Run t (compares t s i) u → Run t s u
  wake : {s u : System} (i : ℕ) → s.pc i ≡ waking → Run t (wakes s i) u → Run t s u

-- The thread is in a wait for this value.
abbrev pub Awaits : ℕ → Pc → Type 0
Awaits e (marking f) = f ≡ e
Awaits e (waiting f) = f ≡ e
Awaits e (asleep f) = f ≡ e
Awaits e (checking f) = f ≡ e
Awaits e pc = ⊥

-- The steps of the calls under way lead to its return, and leave the atomic as it is.
abbrev pub ReturnsFrom : Target → System → ℕ → Type 0
ReturnsFrom t s i = (u : System) × Run t s u × (u.pc i ≡ outside) × (u.atomic ≡ s.atomic)

module _ (t : Target) (is : IsTarget t) where
  first-compare :
      {s : System} (i j : ℕ)
      → (compares t s i).atomic ≡ s.atomic
      → ReturnsFrom t (compares t s i) j
      → ReturnsFrom t s j
  first-compare i j same (u, run, out, kept) = (u, compare i run, out, kept ∙ same)

  checking-ReturnsFrom :
      (s : System) (i e : ℕ)
      → s.pc i ≡ checking e
      → IsFree t e
      → pub_bits t s.atomic ≢ e
      → ReturnsFrom t s i
  unfolding compare_and_wait
  checking-ReturnsFrom s i e w free other =
      let apart : s.atomic ≢ bit_or e (has_waiters t) =
        λ x. other (ap (pub_bits t) (x ∙ flagged_lem t is e free) ∙ pub_bits-flagged t is e free) in
      (compares t s i, compare i (done _), ground arith, ground arith)

  waiting-ReturnsFrom :
      (s : System) (i e : ℕ)
      → IsWhole t
      → IsMarked t s.atomic
      → s.pc i ≡ waiting e
      → IsFree t e
      → pub_bits t s.atomic ≢ e
      → ReturnsFrom t s i
  unfolding compare_and_wait
  waiting-ReturnsFrom s i e whole word w free other =
      let apart : get_i32_ref t s.atomic ≢ compared t e = λ same. elim word.marked [
        | inl bare ↦ compared-free t is word.value e word.free free (rw bare at same)
        | inr flagged ↦ other (
            ap (pub_bits t) flagged
            ∙ pub_bits-flagged t is word.value word.free
            ∙ compared-whole t is word.value e whole word.free free (rw flagged at same))
      ] in
      first-compare i i (ground arith)
        (checking-ReturnsFrom (compares t s i) i e (ground arith) free (λ x. other (ground arith)))

  asleep-ReturnsFrom :
      (s : System) (i j e : ℕ)
      → s.pc i ≡ asleep e
      → s.pc j ≡ waking
      → IsFree t e
      → pub_bits t s.atomic ≢ e
      → ReturnsFrom t s i
  unfolding woken
  asleep-ReturnsFrom s i j e w waker free other =
      let (u, run, out, kept) = checking-ReturnsFrom (wakes s j) i e (ground arith) free other in
      (u, wake j waker run, out, kept)

  marking-ReturnsFrom :
      (s : System) (i e : ℕ)
      → s.pc i ≡ marking e
      → IsFree t e
      → pub_bits t s.atomic ≢ e
      → ReturnsFrom t s i
  unfolding compare_and_wait
  marking-ReturnsFrom s i e w free other =
      let apart : s.atomic ≢ e = λ x. other (ap (pub_bits t) x ∙ pub_bits-free t is e free) in
      (compares t s i, compare i (done _), ground arith, ground arith)

  returns_from :
      {s : System} (i e : ℕ) (pc : Pc)
      → IsWhole t
      → Reach t s
      → s.pc i ≡ pc
      → Awaits e pc
      → pub_bits t s.atomic ≢ e
      → ReturnsFrom t s i
  returns_from {s} i e (marking f) whole r w same other =
      marking-ReturnsFrom s i f w (rw w at ((Reach-Inv t is r).frees i)) (λ x. other (x ∙ same))
  returns_from {s} i e (waiting f) whole r w same other =
      let inv = Reach-Inv t is r in
      waiting-ReturnsFrom s i f whole inv.word w (rw w at (inv.frees i)) (λ x. other (x ∙ same))
  returns_from {s} i e (checking f) whole r w same other =
      checking-ReturnsFrom s i f w (rw w at ((Reach-Inv t is r).frees i)) (λ x. other (x ∙ same))
  returns_from {s} i e (asleep f) whole r w same other =
      elim (whole_sleeper_is_current t is i f whole r w) [
        | inl current ↦ absurd (other (current ∙ same))
        | inr (j, waker) ↦
            asleep-ReturnsFrom s i j f w waker (rw w at ((Reach-Inv t is r).frees i))
              (λ x. other (x ∙ same))
      ]
  returns_from i e pc whole r w awaits other = absurd awaits

  -- On a 32-bit target, and on a 64-bit big-endian one, in every reachable state of the Waiters
  -- over a futex, if a thread is in compare_and_wait and the public bits of the atomic are not
  -- what it expects, then the steps of the calls under way lead to a state in which it has
  -- returned, with the atomic unchanged.
  pub futex_waiter_returns :
      {s : System} (i e : ℕ)
      → IsWhole t
      → Reach t s
      → Awaits e (s.pc i)
      → pub_bits t s.atomic ≢ e
      → ReturnsFrom t s i
  futex_waiter_returns {s} i e whole r awaits other =
      returns_from i e (s.pc i) whole r refl awaits other
