-- ===== src/Keyed/Waiters/Agreement.antt =====
-- Traces of the Waiters over keyed events, and how its threads agree with those of the contract.
use valet_parking.Prelude.{
  ℕ, ◌≡◌, ◌≢◌, Bool, ◌==◌, Option, none, some, List, [], ◌⊎◌, inl, inr, refl, arith, ◌∙◌,
  Bool-cases, ℕ_discrete,
}
use valet_parking.Prelude.Family.{update}
use valet_parking.Word.{Target}
use valet_parking.Reserved.{IsFree}
use valet_parking.Keyed.Waiters.{
  Pc, outside, loading, trying, entering, blocked, checking, swapping, releasing, is_outside,
  pub_bits, compare_and_wait, wait_ends,
}
use valet_parking.Keyed.Waiters.System.{
  System, init, Own, comparing, ends, Step, own, call_wait, call_store, wait_ending, exchanges,
  gives_up, Reach, start, later,
}
use valet_parking.Contract
use valet_parking.Contract.{Event, follows, Traced, leaving, idle, signal}
use valet_parking.Contract.Agreement.{
  update_both, WaitsFor, signal-WaitsFor, Takes, stays, leaves, leave_and_step_out, step_out,
  returned, Reads,
}

module _ (t : Target) (threads : ℕ) where
  -- What a caller sees of a step.
  abbrev pub seen_own : {s u : System} → Own t threads s u → Option Event
  seen_own {s} (comparing i) =
      returned i (is_outside (s.pc i)) (is_outside (compare_and_wait t s.atomic (s.pc i)).pc)
  seen_own (ends i w) = some (Contract.returns i)
  seen_own o = none

  abbrev pub seen : {s u : System} → Step t threads s u → Option Event
  seen (own o) = seen_own o
  seen (call_wait i expected w known) = some (Contract.waits i (pub_bits t expected))
  seen (call_store i new w free) = some (Contract.stores i new)
  seen (exchanges i new w old free) = some (Contract.exchanges i new)
  seen (wait_ending i) = none
  seen (gives_up i w) = none

  -- A run from a start with this trace.
  pub data Runs : System → List Event → Type 0 where
    begin : (a : ℕ) → IsFree t a → Runs (init a) []
    go :
        {s u : System} {trace : List Event}
        → Runs s trace
        → (step : Step t threads s u) → Runs u (follows (seen step) trace)

  pub Runs-Reach : {s : System} {trace : List Event} → Runs s trace → Reach t threads s
  Runs-Reach (begin a free) = start a free
  Runs-Reach (go runs step) = later (Runs-Reach runs) step

module _ (t : Target) where
  -- Where the contract has a thread that stands here.
  abbrev pub Matches : Pc → Contract.Pc → Type 0
  Matches outside q = q ≡ idle
  Matches (loading e) q = WaitsFor e q
  Matches (trying e c) q =
      ((pub_bits t c ≡ e) × WaitsFor e q) ⊎ ((pub_bits t c ≢ e) × (q ≡ leaving))
  Matches (entering e) q = WaitsFor e q
  Matches (blocked e) q = WaitsFor e q
  Matches (checking e) q = WaitsFor e q
  Matches (swapping new) q = q ≡ Contract.storing new
  Matches (releasing left) q = q ≡ leaving

  pub record Agrees (s : System) (a : Contract.System) : Type 0 where
    pub reads : Reads t a s.atomic
    pub pcs : (i : ℕ) → Matches (s.pc i) (a.pc i)

  -- The contract has a run from `o` with this trace that ends in agreement.
  abbrev pub AllowedFrom : (start : Contract.System) → System → List Event → Type 0
  AllowedFrom o s trace = (a : Contract.System) × Traced o a trace × Agrees s a

  -- It has one from a start.
  abbrev pub Allowed : System → List Event → Type 0
  Allowed s trace = (v : ℕ) × AllowedFrom (Contract.init v) s trace

  -- A thread of the contract takes a place that matches `new`.
  abbrev Follows :
      (start : Contract.System) → Contract.System → List Event → ℕ → Option Event → Pc → Type 0
  Follows o a trace i event new = (q : Contract.Pc) × Takes o a trace i event q × Matches new q

  module _ {s : System} {o a : Contract.System} {trace : List Event} (agrees : Agrees s a)
      (traced : Traced o a trace) (i : ℕ) where
    pub follows-Allowed :
        (event : Option Event) (word : ℕ) (new : Pc) (registered : ℕ → Bool)
        → Reads t a word
        → Follows o a trace i event new
        → AllowedFrom o
            (record { atomic = word; pc = update s.pc i new; registered = registered })
            (follows event trace)
    follows-Allowed event word new registered reads (q, takes, matches) = (
      Contract.moves a i q,
      takes,
      record { reads = reads; pcs = update_both Matches s.pc a.pc i new q agrees.pcs matches },
    )

    -- The thread has read the atomic.
    reads-Follows :
        {e : ℕ} (q : Contract.Pc)
        → a.pc i ≡ q
        → WaitsFor e q
        → Follows o a trace i none (trying e s.atomic)
    reads-Follows {e} q here w = elim (ℕ_discrete (pub_bits t s.atomic) e) [
      | yes same ↦ (q, stays i traced here, inl (same, w))
      | no other ↦
          (leaving, leaves i traced q here w (λ x. other (agrees.reads.0 ∙ x)), inr (other, refl))
    ]

    pub comparing-Follows :
        (pc : Pc) (q : Contract.Pc)
        → a.pc i ≡ q
        → Matches pc q
        → Follows o a trace i
            (returned i (is_outside pc) (is_outside (compare_and_wait t s.atomic pc).pc))
            (compare_and_wait t s.atomic pc).pc
    unfolding compare_and_wait
    comparing-Follows outside q here m = (q, stays i traced here, m)
    comparing-Follows (loading e) q here m = reads-Follows q here m
    comparing-Follows (trying e c) q here (inr (other, left)) =
        let p' : (compare_and_wait t s.atomic (trying e c)).pc ≡ outside = ground arith in
        rw p' (idle, step_out i traced (here ∙ left), refl)
    comparing-Follows (trying e c) q here (inl (same, w)) = elim (Bool-cases (s.atomic == c)) [
      | inl current ↦
          let p' : (compare_and_wait t s.atomic (trying e c)).pc ≡ entering e = ground arith in
          rw p' (q, stays i traced here, w)
      | inr changed ↦
          let p' : (compare_and_wait t s.atomic (trying e c)).pc ≡ trying e s.atomic =
            ground arith in
          rw p' (reads-Follows q here w)
    ]
    comparing-Follows (entering e) q here m = (q, stays i traced here, m)
    comparing-Follows (blocked e) q here m = (q, stays i traced here, m)
    comparing-Follows (checking e) q here m = elim (Bool-cases (pub_bits t s.atomic == e)) [
      | inl same ↦
          let p' : (compare_and_wait t s.atomic (checking e)).pc ≡ entering e = ground arith in
          rw p' (q, stays i traced here, m)
      | inr other ↦
          let p' : (compare_and_wait t s.atomic (checking e)).pc ≡ outside = ground arith in
          rw p' (
            idle,
            leave_and_step_out i traced
                (leaves i traced q here m (λ x. ground (arith, x, agrees.reads.0))),
            refl,
          )
    ]
    comparing-Follows (swapping new) q here m = (q, stays i traced here, m)
    comparing-Follows (releasing left) q here m = (q, stays i traced here, m)

    -- The word changes only where a thread that waits for the value counts itself.
    pub comparing_counts :
        (pc : Pc) (q : Contract.Pc)
        → Matches pc q
        → (compare_and_wait t s.atomic pc).atomic ≢ s.atomic
        → (e : ℕ) × WaitsFor e q × (a.value ≡ e)
    unfolding compare_and_wait
    comparing_counts (trying e c) q (inr (other, left)) changed = absurd (changed (ground arith))
    comparing_counts (trying e c) q (inl (same, w)) changed = elim (Bool-cases (s.atomic == c)) [
      | inl current ↦ (e, w, ground (arith, agrees.reads.0))
      | inr other ↦ absurd (changed (ground arith))
    ]
    comparing_counts pc q m changed = absurd (changed refl)

    pub stands-Follows : (new : Pc) → Matches new (a.pc i) → Follows o a trace i none new
    stands-Follows new m = (a.pc i, stays i traced refl, m)

  pub signal-Matches : (pc : Pc) (q : Contract.Pc) → Matches pc q → Matches pc (signal q)
  signal-Matches outside q m = rw m refl
  signal-Matches (loading e) q m = signal-WaitsFor e q m
  signal-Matches (trying e c) q (inl (same, w)) = inl (same, signal-WaitsFor e q w)
  signal-Matches (trying e c) q (inr (other, left)) = inr (other, rw left refl)
  signal-Matches (entering e) q m = signal-WaitsFor e q m
  signal-Matches (blocked e) q m = signal-WaitsFor e q m
  signal-Matches (checking e) q m = signal-WaitsFor e q m
  signal-Matches (swapping new) q m = rw m refl
  signal-Matches (releasing left) q m = rw m refl

  pub wait_ends-Matches : (pc : Pc) (q : Contract.Pc) → Matches pc q → Matches (wait_ends pc) q
  unfolding wait_ends
  wait_ends-Matches outside q m = m
  wait_ends-Matches (loading e) q m = m
  wait_ends-Matches (trying e c) q m = m
  wait_ends-Matches (entering e) q m = m
  wait_ends-Matches (blocked e) q m = m
  wait_ends-Matches (checking e) q m = m
  wait_ends-Matches (swapping new) q m = m
  wait_ends-Matches (releasing left) q m = m
