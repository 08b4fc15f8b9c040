-- ===== src/WaiterQueue/Steps.antt =====
-- Every step keeps the invariant.
use valet_parking.Prelude.{
  ℕ, ◌≤◌, ◌≡◌, refl, arith, false, List, [], ◌∷◌, Bool-cases, ◌==◌, inl, inr,
}
use valet_parking.Prelude.Family.{update, update_same}
use valet_parking.Word.{Target}
use valet_parking.Reserved.{IsFree}
use valet_parking.WaiterQueue.{
  Pc, outside, loading, trying, waiting, reloading, swapping, walking, unparking, pub_bits, first,
  compare_and_wait, store_and_wake, walk, unpark,
}
use valet_parking.WaiterQueue.System.{
  System, HasNode, Uses, IsNode, moves, compares, swaps, Own, reads, ends, unparks, Step, own,
  call_wait, call_store, comparing, returns, storing, exchanges, faults, init, Reach, start, later,
}
use valet_parking.WaiterQueue.Chain.{shared, held, nowhere, Linked-null}
use valet_parking.WaiterQueue.Invariant.{Holds, Inv}
use valet_parking.WaiterQueue.Words.{first-IsFree, linked}
use valet_parking.WaiterQueue.Moves.{Holds-none, moves-Inv, reads-Inv, ends-Inv}
use valet_parking.WaiterQueue.Handover.{enqueues-Inv}
use valet_parking.WaiterQueue.Taking.{swaps-Inv}
use valet_parking.WaiterQueue.Unparking.{unparks-Inv}

-- A pointer that is used next leads to a node.
pub used_node :
    {t : Target} {s : System} (inv : Inv t s) (i p : ℕ)
    → Uses (s.pc i) p
    → (k : ℕ) × HasNode (s.pc k) p
used_node {s = s} inv i p u = go (s.pc i) (inv.chain (held i)) u (inv.holds i)
  where
    go :
        (pc : Pc) (is : List ℕ)
        → Uses pc p
        → Holds s.pc inv.place i pc is
        → (k : ℕ) × HasNode (s.pc k) p
    go (walking q) [] (same, positive) l = absurd (omega arith)
    go (walking q) (k ∷ ks) (same, positive) (node, l) = (k, rw node.waits same)
    go (unparking q n) [] same l = absurd l
    go (unparking q n) (k ∷ ks) same (node, _, l) = (k, rw node.waits same)
    go pc is same l = absurd (ground arith)

-- An access that changes nothing.
still-Inv :
    {t : Target} {s : System} (i : ℕ)
    → Inv t s
    → Inv t (record { atomic = s.atomic; pc = update s.pc i (s.pc i); faulted = s.faulted })
still-Inv {s = s} i inv = rw (update_same s.pc i) inv

-- From one place in the loop of `compare_and_wait` to another, or out of it.
abbrev IsLoop : Pc → Pc → Type 0
IsLoop (loading e) (trying f c) = Unit
IsLoop (reloading e) (trying f c) = Unit
IsLoop (trying e c) (trying f d) = Unit
IsLoop (trying e c) outside = Unit
IsLoop pc new = ⊥

loops-Inv :
    {t : Target} {s : System} (inv : Inv t s) (i : ℕ) (pc new : Pc)
    → s.pc i ≡ pc
    → IsLoop pc new
    → Inv t (moves s i new)
loops-Inv {s = s} inv i pc (trying f c) w l =
    moves-Inv inv i _ (λ x. ground (arith, x)) (λ x. x) (λ p x. x) tt
      (Holds-none s.pc inv.place i (s.pc i) _ (λ p x. ground (arith, w))
        (λ p n x. ground (arith, w)) (inv.holds i))
loops-Inv {s = s} inv i pc outside w l =
    moves-Inv inv i _ (λ x. ground (arith, x)) (λ x. x) (λ p x. x) tt
      (Holds-none s.pc inv.place i (s.pc i) _ (λ p x. ground (arith, w))
        (λ p n x. ground (arith, w)) (inv.holds i))
loops-Inv inv i pc new w l = absurd (ground arith)

module _ (t : Target) (size : 1 ≤ t.usize_bytes) where
  accesses-Inv :
      {s : System} (i node : ℕ) {pc : Pc} (new : Pc)
      → s.pc i ≡ pc
      → (compare_and_wait t node s.atomic (s.pc i)).atomic ≡ s.atomic
      → (compare_and_wait t node s.atomic (s.pc i)).pc ≡ new
      → IsLoop pc new
      → Inv t s
      → Inv t (compares t s i node)
  accesses-Inv {s} i node new w a p l inv = rw a (rw p (loops-Inv inv i _ new w l))

  unchanged-Inv :
      {s : System} (i node : ℕ)
      → (compare_and_wait t node s.atomic (s.pc i)).atomic ≡ s.atomic
      → (compare_and_wait t node s.atomic (s.pc i)).pc ≡ s.pc i
      → Inv t s
      → Inv t (compares t s i node)
  unchanged-Inv {s} i node a p inv = rw a (rw p (still-Inv i inv))

  comparing-Inv :
      {s : System} (i node : ℕ) (pc : Pc)
      → s.pc i ≡ pc
      → (HasNode (compare_and_wait t node s.atomic (s.pc i)).pc node
          → IsNode t node × ((k : ℕ) → HasNode (s.pc k) node → ⊥))
      → Inv t s
      → Inv t (compares t s i node)
  unfolding compare_and_wait
  comparing-Inv {s} i node (loading e) w made inv =
      accesses-Inv i node (trying e s.atomic) w (ground arith) (ground arith) tt inv
  comparing-Inv {s} i node (reloading e) w made inv =
      accesses-Inv i node (trying e s.atomic) w (ground arith) (ground arith) tt inv
  comparing-Inv {s} i node (trying e c) w made inv = elim (Bool-cases (pub_bits t c == e)) [
    | inl same_bits ↦ elim (Bool-cases (s.atomic == c)) [
      | inl same ↦
          let same_word : c ≡ s.atomic = ground arith in
          let bits_e : pub_bits t s.atomic ≡ e = ground arith in
          let a' : (compare_and_wait t node s.atomic (s.pc i)).atomic ≡ linked t s.atomic node =
            rw (w, same_word) (ground arith) in
          let p' : (compare_and_wait t node s.atomic (s.pc i)).pc
              ≡ waiting e node (first t s.atomic) false =
            rw (w, same_word) (ground arith) in
          let (isn, fresh) = made (rw p' refl) in
          rw a' (rw p' (enqueues-Inv t size inv i node (rw same_word at w) bits_e isn fresh))
      | inr other ↦ accesses-Inv i node (trying e s.atomic) w (ground arith) (ground arith) tt inv
    ]
    | inr other ↦ accesses-Inv i node outside w (ground arith) (ground arith) tt inv
  ]
  comparing-Inv i node pc w made inv = unchanged-Inv i node (ground arith) (ground arith) inv

  storing-Inv : {s : System} (i : ℕ) (pc : Pc) → s.pc i ≡ pc → Inv t s → Inv t (swaps t s i)
  unfolding store_and_wake
  storing-Inv i (swapping new) w inv = rw w (swaps-Inv t size inv i w)
  storing-Inv {s} i pc w inv =
      let a : (store_and_wake t s.atomic (s.pc i)).atomic ≡ s.atomic = rw w (ground arith) in
      let p : (store_and_wake t s.atomic (s.pc i)).pc ≡ s.pc i = rw w (ground arith) in
      rw a (rw p (still-Inv i inv))

  Own-Inv : {s u : System} → Own t s u → Inv t s → Inv t u
  unfolding walk unpark
  Own-Inv {s} (comparing i node made) inv = comparing-Inv i node (s.pc i) refl made inv
  Own-Inv {s} (returns i w) inv =
      moves-Inv inv i _ (λ x. rw w at x) (λ x. x) (λ p x. x) tt
        (Holds-none s.pc inv.place i (s.pc i) _ (λ p x. ground (arith, w))
          (λ p n x. ground (arith, w)) (inv.holds i))
  Own-Inv {s} (storing i) inv = storing-Inv i (s.pc i) refl inv
  Own-Inv {s} (reads i k {p} {e} {n} w f positive) inv =
      let next : walk n (s.pc i) ≡ unparking p n = rw w (ground arith) in
      rw next (reads-Inv inv i k w f positive)
  Own-Inv (ends i w) inv = rw w (ends-Inv inv i w)
  Own-Inv (unparks i k w f) inv = rw f (unparks-Inv inv i k w f)

  exchanges-Inv :
      {s : System} (new : ℕ)
      → IsFree t s.atomic
      → IsFree t new
      → Inv t s
      → Inv t (record s { atomic = new })
  exchanges-Inv {s} new old free inv =
      let null = rw (first-IsFree t size s.atomic old) at inv.linked in
      let empty : inv.chain shared ≡ [] =
        Linked-null s.pc inv.place shared (inv.chain shared) null in
      record {
        no_fault = inv.no_fault;
        word = free.word;
        place = inv.place;
        chain = inv.chain;
        linked = rw (first-IsFree t size new free) null;
        holds = inv.holds;
        placed = inv.placed;
        found = inv.found;
        listed = inv.listed;
        apart = inv.apart;
        current = λ i q x. absurd (rw empty at (inv.listed i q));
        stores = inv.stores;
      }

  pub Step-Inv : {s u : System} → Step t s u → Inv t s → Inv t u
  Step-Inv (own o) inv = Own-Inv o inv
  Step-Inv {s} (call_wait i expected w) inv =
      moves-Inv inv i _ (λ x. rw w at x) (λ x. x) (λ p x. x) tt
        (Holds-none s.pc inv.place i (s.pc i) _ (λ p x. ground (arith, w))
          (λ p n x. ground (arith, w)) (inv.holds i))
  Step-Inv {s} (call_store i new w free) inv =
      moves-Inv inv i _ (λ x. rw w at x) (λ x. x) (λ p x. x) free
        (Holds-none s.pc inv.place i (s.pc i) _ (λ p x. ground (arith, w))
          (λ p n x. ground (arith, w)) (inv.holds i))
  Step-Inv (exchanges i new w old free) inv = exchanges-Inv new old free inv
  Step-Inv (faults i p u gone) inv = let (k, h) = used_node inv i p u in absurd (gone k h)

  pub init-Inv : (a : ℕ) → IsFree t a → Inv t (init a)
  init-Inv a free = record {
    no_fault = refl;
    word = free.word;
    place = λ _. nowhere;
    chain = λ _. [];
    linked = first-IsFree t size a free;
    holds = λ j. refl;
    placed = λ i e. absurd (e refl);
    found = λ i x. absurd x;
    listed = λ i e. absurd (ground arith);
    apart = λ i k p x. absurd x;
    current = λ i e. absurd (ground arith);
    stores = λ i. tt;
  }

  pub Reach-Inv : {s : System} → Reach t s → Inv t s
  Reach-Inv (start a free) = init-Inv a free
  Reach-Inv (later r step) = Step-Inv step (Reach-Inv r)
