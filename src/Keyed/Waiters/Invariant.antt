-- ===== src/Keyed/Waiters/Invariant.antt =====
-- What holds in every reachable state of the threads that wait over keyed events.
use native.Mathlib.Nat.{mod-eq_of_lt}
use valet_parking.Prelude.{
  ℕ, zero, suc, ◌+◌, ◌*◌, ◌/◌, ◌%◌, ◌≤◌, ◌<◌, ◌≡◌, ◌≢◌, Bool, true, false, bit_and, arith, refl,
  sym, ap, ◌∙◌, Bool-cases, ◌==◌, inl, inr,
}
use valet_parking.Prelude.Family.{update, update_elim, update_same}
use valet_parking.Prelude.Count.{count, count-le, count-none, count-update}
use valet_parking.Word.{Target, usize_mod}
use valet_parking.Reserved.{reserved_mask, IsFree}
use valet_parking.Reserved.Fields.{field, reserved_lem, pub_bits_lem, word_split}
use valet_parking.WaiterQueue.Words.{fields_div, fields_mod, quotient_below}
use valet_parking.Keyed.Waiters.{
  Pc, outside, loading, trying, entering, blocked, checking, swapping, releasing, pub_bits,
  compare_and_wait, store_and_wake, release_keyed_events, wait_ends,
}
use valet_parking.Keyed.Waiters.System.{
  System, moves, marks, meets, compares, swaps, Own, comparing, storing, meeting, ends, Step, own,
  call_wait, call_store, wait_ending, exchanges, gives_up, Reach, start, later,
}

-- The thread is in its wait for this value, and has counted itself.
abbrev pub Waits : Pc → ℕ → Type 0
Waits (entering e) v = e ≡ v
Waits (blocked e) v = e ≡ v
Waits (checking e) v = e ≡ v
Waits pc v = ⊥

-- What goes with each place.
abbrev pub Agrees : Target → (threads thread : ℕ) → Pc → Type 0
Agrees t n i (loading e) = i < n
Agrees t n i (trying e c) = i < n
Agrees t n i (swapping new) = IsFree t new
Agrees t n i pc = Unit

pub record Inv (t : Target) (threads : ℕ) (s : System) : Type 0 where
  pub word : s.atomic < usize_mod t
  pub counter : s.atomic % field t ≡ count s.registered threads
  pub waits : (i : ℕ) → s.registered i ≡ true → Waits (s.pc i) (pub_bits t s.atomic)
  pub agrees : (i : ℕ) → Agrees t threads i (s.pc i)

module _ (t : Target) (size : 1 ≤ t.usize_bytes) (threads : ℕ) (few : threads < field t) where
  moves-Inv :
      {s : System} (i : ℕ) (new : Pc)
      → Agrees t threads i new
      → (Waits (s.pc i) (pub_bits t s.atomic) → Waits new (pub_bits t s.atomic))
      → Inv t threads s
      → Inv t threads (moves s i new)
  moves-Inv {s} i new ok still inv = record {
    word = inv.word;
    counter = inv.counter;
    waits = λ k h.
        update_elim (λ (pc : Pc). Waits pc (pub_bits t s.atomic)) s.pc i new k
          (λ same. still (inv.waits i (rw same h))) (λ _. inv.waits k h);
    agrees = λ k.
        update_elim (λ (pc : Pc). Agrees t threads k pc) s.pc i new k (λ same. rw (sym same) ok)
          (λ _. inv.agrees k);
  }

  still-Inv :
      (s : System) (i : ℕ) (new : Pc) (mark : Bool)
      → mark ≡ s.registered i
      → Inv t threads (moves s i new)
      → Inv t threads (record {
        atomic = s.atomic;
        pc = update s.pc i new;
        registered = update s.registered i mark;
      })
  still-Inv s i new mark e inv = rw e (rw (update_same s.registered i) inv)

  -- One more thread is counted: no carry reaches the public bits.
  pub word_next :
      (a : ℕ)
      → a < usize_mod t
      → a % field t + 1 < field t
      → (a + 1 < usize_mod t)
        × ((a + 1) % field t ≡ a % field t + 1)
        × (pub_bits t (a + 1) ≡ pub_bits t a)
  word_next a fits room =
      let q = a / field t in
      let split : a + 1 ≡ q * field t + (a % field t + 1) = omega (arith, word_split t size a) in
      let below = quotient_below t size a fits in
      let top : a + 1 < usize_mod t = omega arith in
      (
        top,
        ap (λ (x : ℕ). x % field t) split ∙ fields_mod (field t) q (a % field t + 1) room,
        pub_bits_lem t size (a + 1) top
            ∙ ap (λ (x : ℕ). x * field t)
                (ap (λ (x : ℕ). x / field t) split ∙ fields_div (field t) q (a % field t + 1) room)
            ∙ sym (pub_bits_lem t size a fits),
      )

  -- The count has room for a thread that is about to count itself.
  pub registers-room :
      {s : System} (i : ℕ) {e c : ℕ}
      → s.pc i ≡ trying e c
      → Inv t threads s
      → s.atomic % field t + 1 < field t
  registers-room {s} i {e} w inv =
      let new : s.registered i ≡ false = elim (Bool-cases (s.registered i)) [
        | inl yes_it_is ↦ absurd (rw w at (inv.waits i yes_it_is))
        | inr no_it_is ↦ no_it_is
      ] in
      let known : i < threads = rw w at (inv.agrees i) in
      omega (
        arith,
        count-update s.registered i threads known new,
        count-le (update s.registered i true) threads,
        inv.counter,
      )

  registers-Inv :
      {s : System} (i : ℕ) {e : ℕ}
      → s.pc i ≡ trying e s.atomic
      → pub_bits t s.atomic ≡ e
      → Inv t threads s
      → Inv t threads (record {
        atomic = (s.atomic + 1) % usize_mod t;
        pc = update s.pc i (entering e);
        registered = update s.registered i true;
      })
  registers-Inv {s} i {e} w bits inv =
      let new : s.registered i ≡ false = elim (Bool-cases (s.registered i)) [
        | inl yes_it_is ↦ absurd (rw w at (inv.waits i yes_it_is))
        | inr no_it_is ↦ no_it_is
      ] in
      let known : i < threads = rw w at (inv.agrees i) in
      let more = count-update s.registered i threads known new in
      let room = registers-room i w inv in
      let (top, rest, same) = word_next s.atomic inv.word room in
      rw (mod-eq_of_lt {n = s.atomic + 1} {m = usize_mod t} top) (record {
        word = top;
        counter = omega (arith, inv.counter);
        waits = λ k h.
            update_elim (λ (pc : Pc). Waits pc (pub_bits t (s.atomic + 1))) s.pc i (entering e) k
              (λ _. rw same (sym bits)) (λ other. rw same (inv.waits k (ground (arith, h))));
        agrees = λ k.
            update_elim (λ (pc : Pc). Agrees t threads k pc) s.pc i (entering e) k (λ _. tt)
              (λ _. inv.agrees k);
      })

  accesses-Inv :
      (s : System) (i : ℕ) (new : Pc)
      → (compare_and_wait t s.atomic (s.pc i)).atomic ≡ s.atomic
      → (compare_and_wait t s.atomic (s.pc i)).pc ≡ new
      → marks (s.pc i) new (s.registered i) ≡ s.registered i
      → Inv t threads (moves s i new)
      → Inv t threads (compares t threads s i)
  accesses-Inv s i new a p m inv = rw a (rw p (still-Inv s i new _ m inv))

  comparing-Inv :
      {s : System} (i : ℕ) (pc : Pc)
      → s.pc i ≡ pc
      → Inv t threads s
      → Inv t threads (compares t threads s i)
  unfolding compare_and_wait
  comparing-Inv {s} i (loading e) w inv =
      accesses-Inv s i (trying e s.atomic) (ground arith) (ground arith) (ground arith)
        (moves-Inv i (trying e s.atomic) (rw w at (inv.agrees i)) (λ x. absurd (rw w at x)) inv)
  comparing-Inv {s} i (trying e c) w inv = elim (Bool-cases (pub_bits t c == e)) [
    | inl bits ↦ elim (Bool-cases (s.atomic == c)) [
      | inl same ↦
          let same_word : c ≡ s.atomic = ground arith in
          let bits_e : pub_bits t s.atomic ≡ e = ground arith in
          let a' : (compare_and_wait t s.atomic (s.pc i)).atomic ≡ (s.atomic + 1) % usize_mod t =
            rw (w, same_word) (ground arith) in
          let p' : (compare_and_wait t s.atomic (s.pc i)).pc ≡ entering e =
            rw (w, same_word) (ground arith) in
          let m' : marks (s.pc i) (entering e) (s.registered i) ≡ true = rw w refl in
          rw a' (rw p' (rw m' (registers-Inv i (rw same_word at w) bits_e inv)))
      | inr other ↦
          accesses-Inv s i (trying e s.atomic) (ground arith) (ground arith) (ground arith)
            (moves-Inv i (trying e s.atomic) (rw w at (inv.agrees i)) (λ x. absurd (rw w at x)) inv)
    ]
    | inr other ↦
        accesses-Inv s i outside (ground arith) (ground arith) (ground arith)
          (moves-Inv i outside tt (λ x. absurd (rw w at x)) inv)
  ]
  comparing-Inv {s} i (entering e) w inv =
      accesses-Inv s i (blocked e) (ground arith) (ground arith) (ground arith)
        (moves-Inv i (blocked e) tt (λ x. rw w at x) inv)
  comparing-Inv {s} i (checking e) w inv = elim (Bool-cases (pub_bits t s.atomic == e)) [
    | inl bits ↦
        accesses-Inv s i (entering e) (ground arith) (ground arith) (ground arith)
          (moves-Inv i (entering e) tt (λ x. rw w at x) inv)
    | inr other ↦
        accesses-Inv s i outside (ground arith) (ground arith) (ground arith)
          (moves-Inv i outside tt (λ x. ground (arith, rw w at x)) inv)
  ]
  comparing-Inv {s} i pc w inv =
      accesses-Inv s i pc (rw w (ground arith)) (rw w (ground arith)) (rw w (ground arith))
        (moves-Inv i pc (rw w at (inv.agrees i)) (λ x. rw w at x) inv)

  swaps-Inv :
      {s : System} (i : ℕ) {new : ℕ}
      → s.pc i ≡ swapping new
      → Inv t threads s
      → Inv t threads (swaps t threads s i)
  unfolding store_and_wake
  swaps-Inv {s} i {new} w inv =
      let free : IsFree t new = rw w at (inv.agrees i) in
      rw w (record {
        word = free.word;
        counter = sym (reserved_lem t size new) ∙ free.no_reserved ∙ sym (count-none threads);
        waits = λ k h. absurd (ground (arith, h));
        agrees = λ k.
            update_elim (λ (pc : Pc). Agrees t threads k pc) s.pc i
              (releasing (bit_and s.atomic (reserved_mask t))) k (λ _. tt) (λ _. inv.agrees k);
      })

  -- The end of a wait, and a round of a release, by themselves.
  ends-Inv :
      {s : System} (i : ℕ) (pc : Pc)
      → s.pc i ≡ pc
      → Inv t threads s
      → Inv t threads (moves s i (wait_ends (s.pc i)))
  unfolding wait_ends
  ends-Inv i (blocked e) w inv = rw w (moves-Inv i (checking e) tt (λ x. rw w at x) inv)
  ends-Inv {s} i pc w inv =
      let p' : wait_ends (s.pc i) ≡ pc = rw w (ground arith) in
      rw p' (moves-Inv i pc (rw w at (inv.agrees i)) (λ x. rw w at x) inv)

  release-Inv :
      {s : System} (i left : ℕ)
      → s.pc i ≡ releasing left
      → Inv t threads s
      → Inv t threads (moves s i (release_keyed_events (s.pc i)))
  unfolding release_keyed_events
  release-Inv i zero w inv = rw w (moves-Inv i outside tt (λ x. absurd (rw w at x)) inv)
  release-Inv i (suc left) w inv =
      rw w (moves-Inv i (releasing left) tt (λ x. absurd (rw w at x)) inv)

  meets-Inv :
      {s : System} (i k : ℕ) {left e : ℕ}
      → s.pc i ≡ releasing (suc left)
      → s.pc k ≡ blocked e
      → Inv t threads s
      → Inv t threads (meets s i k)
  meets-Inv {s} i k {left} {e} w f inv =
      let other : k ≢ i = λ x. ground arith in
      let first = ends-Inv k (blocked e) f inv in
      let same : update s.pc k (wait_ends (s.pc k)) i ≡ s.pc i = ground arith in
      rw same at (release-Inv {s = moves s k (wait_ends (s.pc k))} i (suc left) (same ∙ w) first)

  Own-Inv : {s u : System} → Own t threads s u → Inv t threads s → Inv t threads u
  Own-Inv {s} (comparing i) inv = comparing-Inv i (s.pc i) refl inv
  Own-Inv (storing i w) inv = swaps-Inv i w inv
  Own-Inv (meeting i k w f) inv = meets-Inv i k w f inv
  Own-Inv (ends i w) inv = release-Inv i 0 w inv

  pub Step-Inv : {s u : System} → Step t threads s u → Inv t threads s → Inv t threads u
  Step-Inv (own o) inv = Own-Inv o inv
  Step-Inv (call_wait i e w known) inv = moves-Inv i _ known (λ x. absurd (rw w at x)) inv
  Step-Inv (call_store i new w free) inv = moves-Inv i _ free (λ x. absurd (rw w at x)) inv
  Step-Inv (exchanges i new w old free) inv = record {
    word = free.word;
    counter = sym (reserved_lem t size new) ∙ free.no_reserved ∙ sym (count-none threads);
    waits = λ k h. absurd (ground (arith, h));
    agrees = inv.agrees;
  }
  Step-Inv {s} (wait_ending i) inv = ends-Inv i (s.pc i) refl inv
  Step-Inv (gives_up i {left} w) inv = release-Inv i (suc left) w inv

  pub Reach-Inv : {s : System} → Reach t threads s → Inv t threads s
  Reach-Inv (start a free) = record {
    word = free.word;
    counter = sym (reserved_lem t size a) ∙ free.no_reserved ∙ sym (count-none threads);
    waits = λ i h. absurd (ground (arith, h));
    agrees = λ i. tt;
  }
  Reach-Inv (later r step) = Step-Inv step (Reach-Inv r)
