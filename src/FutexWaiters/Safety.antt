-- ===== src/FutexWaiters/Safety.antt =====
-- What the Waiters over a futex promise, and what they miss where the kernel compares no public bit.
use valet_parking.Prelude.{ℕ, ◌≡◌, ◌≢◌, ◌⊎◌, inl, inr, bit_and, arith, ◌∙◌, ap, false}
use valet_parking.Word.{Target, IsTarget}
use valet_parking.Reserved.{IsFree}
use valet_parking.FutexWaiters.{
  waiting, asleep, waking, has_waiters, pub_bits, get_i32_ref, compared, compare_and_wait,
}
use valet_parking.FutexWaiters.System.{System, compares, Step, comparing, Reach}
use valet_parking.FutexWaiters.Words.{
  IsWhole, has_flagged, has_free, pub_bits-flagged, compared-free, compared-whole, compared-little,
}
use valet_parking.FutexWaiters.Invariant.{Inv}
use valet_parking.FutexWaiters.Steps.{Reach-Inv}

-- Some thread is about to call `wake`.
abbrev pub WillWake : System → Type 0
WillWake s = (j : ℕ) × (s.pc j ≡ waking)

pub sleeper_is_marked :
    (t : Target) (is : IsTarget t) {s : System} (i e : ℕ)
    → Reach t s
    → s.pc i ≡ asleep e
    → (bit_and s.atomic (has_waiters t) ≡ has_waiters t) ⊎ WillWake s
sleeper_is_marked t is {s} i e r w =
    let inv = Reach-Inv t is r in
    let word = inv.word in
    let free : IsFree t e = rw w at (inv.frees i) in
    elim (inv.slept i e w) [
      | inr waker ↦ inr waker
      | inl same ↦ elim word.marked [
        | inl bare ↦ absurd (compared-free t is word.value e word.free free (rw bare at same))
        | inr flagged ↦ inl (rw flagged (has_flagged t is word.value word.free))
      ]
    ]

pub whole_sleeper_is_current :
    (t : Target) (is : IsTarget t) {s : System} (i e : ℕ)
    → IsWhole t
    → Reach t s
    → s.pc i ≡ asleep e
    → (pub_bits t s.atomic ≡ e) ⊎ WillWake s
whole_sleeper_is_current t is {s} i e whole r w =
    let inv = Reach-Inv t is r in
    let word = inv.word in
    let free : IsFree t e = rw w at (inv.frees i) in
    elim (inv.slept i e w) [
      | inr waker ↦ inr waker
      | inl same ↦ elim word.marked [
        | inl bare ↦ absurd (compared-free t is word.value e word.free free (rw bare at same))
        | inr flagged ↦ inl (
            ap (pub_bits t) flagged
            ∙ pub_bits-flagged t is word.value word.free
            ∙ compared-whole t is word.value e whole word.free free (rw flagged at same))
      ]
    ]

-- On a 64-bit little-endian target, from every reachable state in which HAS_WAITERS is set, no
-- thread is about to call wake, and a thread in compare_and_wait is about to be compared by the
-- kernel although the public bits no longer are what it expects, one step leads to a state in
-- which that thread sleeps, the public bits still are not what it expects, and no thread is about
-- to call wake.
pub little_sleeper_is_lost :
    (t : Target) {s : System} (i e : ℕ)
    → t.usize_bytes ≡ 8
    → t.big_endian ≡ false
    → Reach t s
    → s.pc i ≡ waiting e
    → bit_and s.atomic (has_waiters t) ≡ has_waiters t
    → pub_bits t s.atomic ≢ e
    → (WillWake s → ⊥)
    → (u : System) × Step t s u × (u.pc i ≡ asleep e) × (pub_bits t u.atomic ≢ e) × (WillWake u → ⊥)
unfolding compare_and_wait
little_sleeper_is_lost t {s} i e width little r w marked other nobody = (
  compares t s i,
  comparing i,
  ground (arith, w, same),
  rw w other,
  λ (j, x). nobody (j, ground (arith, same, x)),
)
  where
    is : IsTarget t
    is = inr width

    inv : Inv t s
    inv = Reach-Inv t is r

    same : get_i32_ref t s.atomic ≡ compared t e
    same = elim inv.word.marked [
      | inl bare ↦ absurd (has_free t is inv.word.value inv.word.free (rw bare at marked))
      | inr flagged ↦
          rw flagged (
            compared-little t is inv.word.value e width little inv.word.free
              (rw w at (inv.frees i)))
    ]
