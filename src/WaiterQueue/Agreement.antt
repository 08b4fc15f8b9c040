-- ===== src/WaiterQueue/Agreement.antt =====
-- Traces of the list of waiters, and how its threads agree with those of the contract.
use valet_parking.Prelude.{
  ℕ, ◌≡◌, ◌≢◌, Bool, false, ◌==◌, Option, none, some, List, [], ◌⊎◌, inl, inr, refl, arith, ◌∙◌,
  Bool-cases, ℕ_discrete,
}
use valet_parking.Prelude.Family.{update}
use valet_parking.Word.{Target}
use valet_parking.Reserved.{IsFree}
use valet_parking.WaiterQueue.{
  Pc, outside, loading, trying, waiting, reloading, swapping, walking, unparking, is_outside,
  pub_bits, first, compare_and_wait, unpark,
}
use valet_parking.WaiterQueue.System.{
  System, init, Own, comparing, ends, Step, own, call_wait, call_store, exchanges, faults, Reach,
  start, later,
}
use valet_parking.Contract
use valet_parking.Contract.{Event, follows, Traced, leaving, idle, signal}
use valet_parking.Contract.Agreement.{
  update_both, WaitsFor, signal-WaitsFor, Takes, stays, leaves, step_out, returned, Reads,
}

module _ (t : Target) where
  -- What a caller sees of a step.
  abbrev pub seen_own : {s u : System} → Own t s u → Option Event
  seen_own {s} (comparing i node made) =
      returned i (is_outside (s.pc i)) (is_outside (compare_and_wait t node s.atomic (s.pc i)).pc)
  seen_own (ends i w) = some (Contract.returns i)
  seen_own o = none

  abbrev pub seen : {s u : System} → Step t s u → Option Event
  seen (own o) = seen_own o
  seen (call_wait i expected w) = some (Contract.waits i (pub_bits t expected))
  seen (call_store i new w free) = some (Contract.stores i new)
  seen (exchanges i new w old free) = some (Contract.exchanges i new)
  seen (faults i p used gone) = none

  -- A run from a start with this trace.
  pub data Runs : System → List Event → Type 0 where
    begin : (a : ℕ) → IsFree t a → Runs (init a) []
    go :
        {s u : System} {trace : List Event}
        → Runs s trace
        → (step : Step t s u) → Runs u (follows (seen step) trace)

  pub Runs-Reach : {s : System} {trace : List Event} → Runs s trace → Reach t s
  Runs-Reach (begin a free) = start a free
  Runs-Reach (go runs step) = later (Runs-Reach runs) step

  -- Where the contract has a thread that stands here.
  abbrev pub Matches : Pc → Contract.Pc → Type 0
  Matches outside q = q ≡ idle
  Matches (loading e) q = WaitsFor e q
  Matches (trying e c) q =
      ((pub_bits t c ≡ e) × WaitsFor e q) ⊎ ((pub_bits t c ≢ e) × (q ≡ leaving))
  Matches (waiting e node next unparked) q = WaitsFor e q
  Matches (reloading e) q = WaitsFor e q
  Matches (swapping new) q = q ≡ Contract.storing new
  Matches (walking p) q = q ≡ leaving
  Matches (unparking p n) q = q ≡ leaving

  pub record Agrees (s : System) (a : Contract.System) : Type 0 where
    pub reads : Reads t a s.atomic
    pub pcs : (i : ℕ) → Matches (s.pc i) (a.pc i)

  -- The contract has a run from `o` with this trace that ends in agreement.
  abbrev pub AllowedFrom : (start : Contract.System) → System → List Event → Type 0
  AllowedFrom o s trace = (a : Contract.System) × Traced o a trace × Agrees s a

  -- It has one from a start.
  abbrev pub Allowed : System → List Event → Type 0
  Allowed s trace = (v : ℕ) × AllowedFrom (Contract.init v) s trace

  -- A thread of the contract takes a place that matches `new`.
  abbrev Follows :
      (start : Contract.System) → Contract.System → List Event → ℕ → Option Event → Pc → Type 0
  Follows o a trace i event new = (q : Contract.Pc) × Takes o a trace i event q × Matches new q

  module _ {s : System} {o a : Contract.System} {trace : List Event} (agrees : Agrees s a)
      (traced : Traced o a trace) (i : ℕ) where
    pub follows-Allowed :
        (event : Option Event) (word : ℕ) (new : Pc) (faulted : Bool)
        → Reads t a word
        → Follows o a trace i event new
        → AllowedFrom o
            (record { atomic = word; pc = update s.pc i new; faulted = faulted })
            (follows event trace)
    follows-Allowed event word new faulted reads (q, takes, matches) = (
      Contract.moves a i q,
      takes,
      record { reads = reads; pcs = update_both Matches s.pc a.pc i new q agrees.pcs matches },
    )

    -- The thread has read the atomic.
    reads-Follows :
        {e : ℕ} (q : Contract.Pc)
        → a.pc i ≡ q
        → WaitsFor e q
        → Follows o a trace i none (trying e s.atomic)
    reads-Follows {e} q here w = elim (ℕ_discrete (pub_bits t s.atomic) e) [
      | yes same ↦ (q, stays i traced here, inl (same, w))
      | no other ↦
          (leaving, leaves i traced q here w (λ x. other (agrees.reads.0 ∙ x)), inr (other, refl))
    ]

    pub comparing-Follows :
        (node : ℕ) (pc : Pc) (q : Contract.Pc)
        → a.pc i ≡ q
        → Matches pc q
        → Follows o a trace i
            (returned i (is_outside pc) (is_outside (compare_and_wait t node s.atomic pc).pc))
            (compare_and_wait t node s.atomic pc).pc
    unfolding compare_and_wait
    comparing-Follows node outside q here m = (q, stays i traced here, m)
    comparing-Follows node (loading e) q here m = reads-Follows q here m
    comparing-Follows node (trying e c) q here (inr (other, left)) =
        let p' : (compare_and_wait t node s.atomic (trying e c)).pc ≡ outside = ground arith in
        rw p' (idle, step_out i traced (here ∙ left), refl)
    comparing-Follows node (trying e c) q here (inl (same, w)) = elim (Bool-cases (s.atomic == c)) [
      | inl current ↦
          let p' : (compare_and_wait t node s.atomic (trying e c)).pc
              ≡ waiting e node (first t c) false =
            ground arith in
          rw p' (q, stays i traced here, w)
      | inr changed ↦
          let p' : (compare_and_wait t node s.atomic (trying e c)).pc ≡ trying e s.atomic =
            ground arith in
          rw p' (reads-Follows q here w)
    ]
    comparing-Follows node (waiting e p n u) q here m = (q, stays i traced here, m)
    comparing-Follows node (reloading e) q here m = reads-Follows q here m
    comparing-Follows node (swapping new) q here m = (q, stays i traced here, m)
    comparing-Follows node (walking p) q here m = (q, stays i traced here, m)
    comparing-Follows node (unparking p n) q here m = (q, stays i traced here, m)

    -- The word changes only where a node is made for a thread that waits for the value.
    pub comparing_links :
        (node : ℕ) (pc : Pc) (q : Contract.Pc)
        → Matches pc q
        → (compare_and_wait t node s.atomic pc).atomic ≢ s.atomic
        → (e : ℕ) × WaitsFor e q × (a.value ≡ e)
    unfolding compare_and_wait
    comparing_links node (trying e c) q (inr (other, left)) changed =
        absurd (changed (ground arith))
    comparing_links node (trying e c) q (inl (same, w)) changed =
        elim (Bool-cases (s.atomic == c)) [
          | inl current ↦ (e, w, ground (arith, agrees.reads.0))
          | inr other ↦ absurd (changed (ground arith))
        ]
    comparing_links node pc q m changed = absurd (changed refl)

    pub stands-Follows : (new : Pc) → Matches new (a.pc i) → Follows o a trace i none new
    stands-Follows new m = (a.pc i, stays i traced refl, m)

  pub signal-Matches : (pc : Pc) (q : Contract.Pc) → Matches pc q → Matches pc (signal q)
  signal-Matches outside q m = rw m refl
  signal-Matches (loading e) q m = signal-WaitsFor e q m
  signal-Matches (trying e c) q (inl (same, w)) = inl (same, signal-WaitsFor e q w)
  signal-Matches (trying e c) q (inr (other, left)) = inr (other, rw left refl)
  signal-Matches (waiting e p n u) q m = signal-WaitsFor e q m
  signal-Matches (reloading e) q m = signal-WaitsFor e q m
  signal-Matches (swapping new) q m = rw m refl
  signal-Matches (walking p) q m = rw m refl
  signal-Matches (unparking p n) q m = rw m refl

  pub unpark-Matches : (pc : Pc) (q : Contract.Pc) → Matches pc q → Matches (unpark pc) q
  unfolding unpark
  unpark-Matches (waiting e p n u) q m = m
  unpark-Matches outside q m = m
  unpark-Matches (loading e) q m = m
  unpark-Matches (trying e c) q m = m
  unpark-Matches (reloading e) q m = m
  unpark-Matches (swapping new) q m = m
  unpark-Matches (walking p) q m = m
  unpark-Matches (unparking p n) q m = m
