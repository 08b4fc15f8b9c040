-- ===== src/WaiterQueue/Chain.antt =====
-- The linked lists as lists of threads: who waits in which, and at what distance from its end.
use valet_parking.Prelude.{ℕ, ◌+◌, ◌<◌, ◌≡◌, ◌⊎◌, false, List, [], ◌∷◌, refl, arith}
use valet_parking.WaiterQueue.{Pc, waiting}

-- The list that hangs on the atomic, and that which a thread in `store_and_wake` has taken.
pub data Owner : Type 0 where
  shared : Owner
  held : (thread : ℕ) → Owner

pub data Place : Type 0 where
  nowhere : Place
  at : (owner : Owner) (rank : ℕ) → Place

abbrev pub size : List ℕ → ℕ
size [] = 0
size (i ∷ is) = size is + 1

abbrev pub Listed : ℕ → List ℕ → Type 0
Listed i [] = ⊥
Listed i (k ∷ ks) = (i ≡ k) ⊎ Listed i ks

-- Thread `i` waits at `p`, and its node links to `next`.
pub record Node (pcs : ℕ → Pc) (place : ℕ → Place) (owner : Owner) (p i rank : ℕ) : Type 0 where
  pub expected : ℕ
  pub next : ℕ
  pub waits : pcs i ≡ waiting expected p next false
  pub placed : place i ≡ at owner rank
  pub nonnull : 0 < p

-- The list that begins at `p` is that of the nodes of the threads `is`.
abbrev pub Linked : (ℕ → Pc) → (ℕ → Place) → Owner → ℕ → List ℕ → Type 0
Linked pcs place o p [] = p ≡ 0
Linked pcs place o p (i ∷ is) =
    (node : Node pcs place o p i (size is)) × Linked pcs place o node.next is

-- A list survives what leaves its nodes as they are, under the same owner or a new one.
pub Linked-carried :
    {pcs qcs : ℕ → Pc} {place qlace : ℕ → Place} {o u : Owner} (p : ℕ) (is : List ℕ)
    → ((i r : ℕ) → place i ≡ at o r → r < size is → (qcs i ≡ pcs i) × (qlace i ≡ at u r))
    → Linked pcs place o p is
    → Linked qcs qlace u p is
Linked-carried p [] same l = l
Linked-carried p (i ∷ is) same (node, l) =
    let (waits, placed) = same i (size is) node.placed (omega arith) in
    (
      record {
        expected = node.expected;
        next = node.next;
        waits = cc;
        placed = placed;
        nonnull = node.nonnull;
      },
      Linked-carried node.next is (λ k r e below. same k r e (omega arith)) l,
    )

-- A null pointer is the empty list.
pub Linked-null :
    (pcs : ℕ → Pc) (place : ℕ → Place) (o : Owner) (is : List ℕ) → Linked pcs place o 0 is → is ≡ []
Linked-null pcs place o [] l = refl
Linked-null pcs place o (i ∷ is) (node, l) = absurd (omega (arith, node.nonnull))
