-- ===== src/FutexWaiters/Comparing.antt =====
-- The accesses of `compare_and_wait` over a futex as steps of the contract.
use valet_parking.Prelude.{
  ℕ, ◌+◌, ◌≡◌, ◌≢◌, ◌==◌, Option, none, some, List, bit_or, inl, inr, refl, sym, arith, ap, ◌∙◌,
  Bool-cases,
}
use valet_parking.Prelude.Family.{update, update_same}
use valet_parking.Word.{Target, IsTarget}
use valet_parking.Reserved.{IsFree}
use valet_parking.FutexWaiters.{
  Pc, outside, marking, waiting, asleep, checking, storing, waking, is_outside, has_waiters,
  pub_bits, get_i32_ref, compared, compare_and_wait,
}
use valet_parking.FutexWaiters.System.{System, moves, compares}
use valet_parking.FutexWaiters.Words.{
  flagged_lem, has_flagged, has_free, pub_bits-flagged, pub_bits-free,
}
use valet_parking.FutexWaiters.Invariant.{Frees, Inv}
use valet_parking.FutexWaiters.Agreement.{Excused, Matches, Agrees, AllowedFrom, Follows}
use valet_parking.Contract
use valet_parking.Contract.{Event, follows, Traced, leaving, idle, signal}
use valet_parking.Contract.Agreement.{
  update_both, marks, marked, Takes, stays, leaves, leaves_by_store, leave_and_step_out, returned,
}

module _ (t : Target) (is : IsTarget t) where
  -- A word with `HAS_WAITERS` is no free word.
  flagged_apart : (word e : ℕ) → IsFree t word → IsFree t e → word ≢ e + has_waiters t
  flagged_apart word e free_word free_e same =
      has_free t is word free_word (rw same (has_flagged t is e free_e))

  marked-Excused :
      (word e : ℕ) (q : Contract.Pc)
      → IsFree t word
      → IsFree t e
      → Excused t word e q
      → (new : ℕ) → Excused t new e q
  marked-Excused word e q free free_e (w, inl signalled) new = (w, inl signalled)
  marked-Excused word e q free free_e (w, inr same) new =
      absurd (flagged_apart word e free free_e same)

  -- The first mark on a free word keeps the match of every thread.
  marked-Matches :
      (word new : ℕ) (pc : Pc) (q : Contract.Pc)
      → IsFree t word
      → Frees t pc
      → Matches t word pc q
      → Matches t new pc q
  marked-Matches word new outside q free f m = m
  marked-Matches word new (marking e) q free f m = m
  marked-Matches word new (waiting e) q free f m = marked-Excused word e q free f m new
  marked-Matches word new (asleep e) q free f m = marked-Excused word e q free f m new
  marked-Matches word new (checking e) q free f m = marked-Excused word e q free f m new
  marked-Matches word new (storing v) q free f m = m
  marked-Matches word new waking q free f m = m

  module _ {s : System} {o a : Contract.System} {trace : List Event} (inv : Inv t s)
      (agrees : Agrees t s a) (traced : Traced o a trace) where
    pub follows-Allowed :
        (i : ℕ) (event : Option Event) (new : Pc)
        → Follows t o a trace i event s.atomic new
        → AllowedFrom t o (moves s i new) (follows event trace)
    follows-Allowed i event new (q, takes, matches) = (
      Contract.moves a i q,
      takes,
      record {
        reads = agrees.reads;
        pcs = update_both (Matches t s.atomic) s.pc a.pc i new q agrees.pcs matches;
      },
    )

    pub stands-Allowed :
        (i : ℕ) (new : Pc) → Matches t s.atomic new (a.pc i) → AllowedFrom t o (moves s i new) trace
    stands-Allowed i new m = follows-Allowed i none new (a.pc i, stays i traced refl, m)

    still-Allowed :
        (i : ℕ) → AllowedFrom t o (record { atomic = s.atomic; pc = update s.pc i (s.pc i) }) trace
    still-Allowed i = stands-Allowed i (s.pc i) (agrees.pcs i)

    -- The thread returns from its wait.
    out-Allowed :
        (i : ℕ)
        → Takes o a trace i none leaving
        → AllowedFrom t o (moves s i outside) (follows (some (Contract.returns i)) trace)
    out-Allowed i left =
        follows-Allowed i (some (Contract.returns i)) outside
          (idle, leave_and_step_out i traced left, refl)

    marks-Allowed :
        (i : ℕ) {e : ℕ}
        → s.pc i ≡ marking e
        → s.atomic ≡ e
        → AllowedFrom t o
            (record { atomic = bit_or e (has_waiters t); pc = update s.pc i (waiting e) })
            trace
    marks-Allowed i {e} w same =
        let free_e : IsFree t e = rw w at (inv.frees i) in
        let free : IsFree t s.atomic = rw same free_e in
        let word : bit_or e (has_waiters t) ≡ e + has_waiters t = flagged_lem t is e free_e in
        let value : a.value ≡ e = sym agrees.reads.0 ∙ pub_bits-free t is s.atomic free ∙ same in
        (
          marked a,
          marks i traced (a.pc i) refl (rw w at (agrees.pcs i)) value,
          record {
            reads = (ap (pub_bits t) word ∙ pub_bits-flagged t is e free_e ∙ sym value, λ bare. cc);
            pcs = rw (sym (update_same a.pc i)) (
                update_both (Matches t (bit_or e (has_waiters t))) s.pc a.pc i (waiting e) (a.pc i)
                  (λ k.
                    marked-Matches s.atomic _ (s.pc k) (a.pc k) free (inv.frees k) (agrees.pcs k))
                  (rw w at (agrees.pcs i), inr word));
          },
        )

    accesses-Allowed :
        (i : ℕ) (pc new : Pc)
        → s.pc i ≡ pc
        → (compare_and_wait t s.atomic (s.pc i)).atomic ≡ s.atomic
        → (compare_and_wait t s.atomic (s.pc i)).pc ≡ new
        → AllowedFrom t o
            (moves s i new)
            (follows (returned i (is_outside pc) (is_outside new)) trace)
        → AllowedFrom t o (compares t s i) (
            follows
              (returned i
                (is_outside (s.pc i))
                (is_outside (compare_and_wait t s.atomic (s.pc i)).pc))
              trace)
    accesses-Allowed i pc new w a' p' allowed = rw a' (rw p' (rw w allowed))

    -- Who finds the public bits as it expects them, in a word that is not free, finds the mark.
    found-Excused :
        (i : ℕ) {e : ℕ}
        → s.pc i ≡ marking e
        → s.atomic ≢ e
        → pub_bits t s.atomic ≡ e
        → Excused t s.atomic e (a.pc i)
    found-Excused i {e} w other bits = (
      rw w at (agrees.pcs i),
      elim inv.word.marked [
        | inl bare ↦ absurd (
            other (
              bare
              ∙ sym (pub_bits-free t is inv.word.value inv.word.free)
              ∙ sym (ap (pub_bits t) bare)
              ∙ bits))
        | inr flagged ↦ inr (
            let same : inv.word.value ≡ e =
              sym (pub_bits-flagged t is inv.word.value inv.word.free)
              ∙ sym (ap (pub_bits t) flagged)
              ∙ bits in
            flagged ∙ ap (λ (x : ℕ). x + has_waiters t) same)
      ],
    )

    pub comparing-Allowed :
        (i : ℕ) (pc : Pc)
        → s.pc i ≡ pc
        → AllowedFrom t o (compares t s i) (
            follows
              (returned i
                (is_outside (s.pc i))
                (is_outside (compare_and_wait t s.atomic (s.pc i)).pc))
              trace)
    unfolding compare_and_wait
    comparing-Allowed i (marking e) w = elim (Bool-cases (s.atomic == e)) [
      | inl same ↦
          let free_e : IsFree t e = rw w at (inv.frees i) in
          let here : s.atomic ≡ e = ground arith in
          let bits : pub_bits t s.atomic ≡ e = ap (pub_bits t) here ∙ pub_bits-free t is e free_e in
          let a' : (compare_and_wait t s.atomic (s.pc i)).atomic ≡ bit_or e (has_waiters t) =
            rw w (ground arith) in
          let p' : (compare_and_wait t s.atomic (s.pc i)).pc ≡ waiting e = rw w (ground arith) in
          rw a' (rw p' (rw w (marks-Allowed i w here)))
      | inr other ↦ elim (Bool-cases (pub_bits t s.atomic == e)) [
        | inl bits ↦
            accesses-Allowed i (marking e) (waiting e) w (ground arith) (ground arith)
              (stands-Allowed i (waiting e) (found-Excused i w (λ x. ground arith) (ground arith)))
        | inr bits ↦ accesses-Allowed i (marking e) outside w (ground arith) (ground arith) (
            out-Allowed i (
              leaves i traced (a.pc i) refl (rw w at (agrees.pcs i))
                (λ x. ground (arith, x, agrees.reads.0))))
      ]
    ]
    comparing-Allowed i (waiting e) w = elim (Bool-cases (get_i32_ref t s.atomic == compared t e)) [
      | inl same ↦
          accesses-Allowed i (waiting e) (asleep e) w (ground arith) (ground arith)
            (stands-Allowed i (asleep e) (rw w at (agrees.pcs i)))
      | inr other ↦
          accesses-Allowed i (waiting e) (checking e) w (ground arith) (ground arith)
            (stands-Allowed i (checking e) (rw w at (agrees.pcs i)))
    ]
    comparing-Allowed i (checking e) w = elim (Bool-cases (s.atomic == bit_or e (has_waiters t))) [
      | inl same ↦
          accesses-Allowed i (checking e) (waiting e) w (ground arith) (ground arith)
            (stands-Allowed i (waiting e) (rw w at (agrees.pcs i)))
      | inr other ↦
          let excused : Excused t s.atomic e (a.pc i) = rw w at (agrees.pcs i) in
          accesses-Allowed i (checking e) outside w (ground arith) (ground arith) (
            out-Allowed i (elim excused.1 [
              | inl signalled ↦ leaves_by_store i traced (a.pc i) refl signalled
              | inr same ↦ absurd (
                  let free_e : IsFree t e = rw w at (inv.frees i) in
                  ground (arith, same, flagged_lem t is e free_e))
            ]))
    ]
    comparing-Allowed i pc w =
        let a' : (compare_and_wait t s.atomic (s.pc i)).atomic ≡ s.atomic = rw w (ground arith) in
        let p' : (compare_and_wait t s.atomic (s.pc i)).pc ≡ pc = rw w (ground arith) in
        accesses-Allowed i pc pc w a' p' (stands-Allowed i pc (rw w at (agrees.pcs i)))
