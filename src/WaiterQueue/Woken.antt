-- ===== src/WaiterQueue/Woken.antt =====
-- A run of `store_and_wake` to its end, from anywhere in its loop.
use valet_parking.Prelude.{ℕ, ◌<◌, ◌≡◌, inl, inr, true, false, List, [], ◌∷◌, refl, sym, ◌∙◌, arith}
use valet_parking.Prelude.Family.{update}
use valet_parking.Word.{Target}
use valet_parking.WaiterQueue.{Pc, outside, waiting, walking, unparking, walk, unpark}
use valet_parking.WaiterQueue.System.{System, reads, ends, unparks, Run, done, next, moves}
use valet_parking.WaiterQueue.Chain.{Owner, held, Place, at, size, Listed, Linked}
use valet_parking.WaiterQueue.Invariant.{Holds}
use valet_parking.WaiterQueue.Safety.{Walks}

-- The thread waits for another value than `expected`; its Parker has been unparked.
abbrev pub Waits : ℕ → Pc → Type 0
Waits expected (waiting e p n unparked) = e ≡ expected
Waits expected pc = ⊥

abbrev pub Unparked : ℕ → Pc → Type 0
Unparked expected (waiting e p n true) = e ≡ expected
Unparked expected pc = ⊥

-- A run to the end of `store_and_wake` in thread `j` that unparks the threads `is`.
pub record Woken (t : Target) (s : System) (j : ℕ) (is : List ℕ) : Type 0 where
  pub last : System
  pub run : Run t s last
  pub atomic : last.atomic ≡ s.atomic
  pub out : last.pc j ≡ outside
  pub kept : (i e : ℕ) → Unparked e (s.pc i) → Unparked e (last.pc i)
  pub woken : (i e : ℕ) → Listed i is → Waits e (s.pc i) → Unparked e (last.pc i)

-- A list survives what leaves its nodes as they are.
Linked-kept :
    {pcs qcs : ℕ → Pc} {place : ℕ → Place} {o : Owner} (p : ℕ) (is : List ℕ)
    → ((i r e q n : ℕ)
        → pcs i ≡ waiting e q n false
        → place i ≡ at o r
        → r < size is
        → qcs i ≡ pcs i)
    → Linked pcs place o p is
    → Linked qcs place o p is
Linked-kept p [] same l = l
Linked-kept p (i ∷ is) same (node, l) = (
  record {
    expected = node.expected;
    next = node.next;
    waits =
        same i (size is) node.expected p node.next node.waits node.placed (omega arith)
        ∙ node.waits;
    placed = node.placed;
    nonnull = node.nonnull;
  },
  Linked-kept node.next is (λ k r e q n w x below. same k r e q n w x (omega arith)) l,
)

module _ (t : Target) (place : ℕ → Place) where
  -- From the `unpark` of the first thread of the list on.
  unparking-Woken :
      (ks : List ℕ) {s : System} (j k p e n : ℕ)
      → s.pc j ≡ unparking p n
      → s.pc k ≡ waiting e p n false
      → place k ≡ at (held j) (size ks)
      → Linked s.pc place (held j) n ks
      → ((u : System) → u.pc j ≡ walking n → Linked u.pc place (held j) n ks → Woken t u j ks)
      → Woken t s j (k ∷ ks)
  unfolding unpark
  unparking-Woken ks {s = s} j k p e n w f at_k l rest = record {
    last = tail.last;
    run = next (unparks j k w f) tail.run;
    atomic = tail.atomic;
    out = tail.out;
    kept = λ i x h. tail.kept i x (ground (arith, h));
    woken = λ i x listed h. elim listed as (λ _. Unparked x (tail.last.pc i)) [
      | inl same ↦ tail.kept i x (ground (arith, h))
      | inr later ↦ tail.woken i x later (ground (arith, h))
    ];
  }
    where
      after : System
      after = record s { pc = update (update s.pc k (unpark (s.pc k))) j (walking n) }

      tail : Woken t after j ks
      tail =
          rest after (ground arith)
            (Linked-kept n ks (λ i r e q m x y below. ground (arith, x, y)) l)

  walking-Woken :
      (is : List ℕ) {s : System} (j : ℕ) {p : ℕ}
      → s.pc j ≡ walking p
      → Linked s.pc place (held j) p is
      → Woken t s j is
  unfolding walk
  walking-Woken [] {s} j w l =
      let w0 : s.pc j ≡ walking 0 = rw (sym l) w in
      record {
        last = moves s j (walk 0 (s.pc j));
        run = next (ends j w0) (done _);
        atomic = refl;
        out = ground arith;
        kept = λ i x h. ground (arith, h);
        woken = λ i x listed h. absurd listed;
      }
  walking-Woken (k ∷ ks) {s} j {p} w (node, l) =
      let tail =
        unparking-Woken ks {s = read} j k p node.expected node.next (ground arith)
          (ground (arith, node.waits)) node.placed
          (Linked-kept node.next ks (λ i r e q m x y below. ground (arith, x)) l)
          (λ u y m. walking-Woken ks {s = u} j y m) in
      record {
        last = tail.last;
        run = next (reads j k w node.waits node.nonnull) tail.run;
        atomic = tail.atomic;
        out = tail.out;
        kept = λ i x h. tail.kept i x (ground (arith, h));
        woken = λ i x listed h. tail.woken i x listed (ground (arith, h));
      }
    where
      read : System
      read = moves s j (walk node.next (s.pc j))

  -- From anywhere in the loop.
  pub Holds-Woken :
      (is : List ℕ) {s : System} (j p : ℕ) (pc : Pc)
      → s.pc j ≡ pc
      → Walks pc p
      → Holds s.pc place j pc is
      → Woken t s j is
  Holds-Woken is j q (walking p) w x h = walking-Woken is j w h
  Holds-Woken [] j q (unparking p n) w x h = absurd h
  Holds-Woken (k ∷ ks) {s} j q (unparking p n) w x (node, same, l) =
      unparking-Woken ks {s = s} j k p node.expected n w (rw (sym same) node.waits) node.placed l
        (λ u y m. walking-Woken ks {s = u} j y m)
  Holds-Woken is j q pc w x h = absurd (ground (arith, x))
