-- ===== src/PosixWaiters/Linked.antt =====
-- How the place of a thread in the list goes with the Parker in its node.
use valet_parking.Prelude.{ℕ, ◌%◌, ◌≡◌, ◌⊎◌, true, false, ◌==◌, refl, arith, inl, inr, Bool-cases}
use valet_parking.Word.{Target}
use valet_parking.WaiterQueue.{
  Pc, outside, loading, trying, waiting, reloading, swapping, walking, unparking, pub_bits, first,
  compare_and_wait, store_and_wake, walk, unpark,
}
use valet_parking.WaiterQueue as Queue
use valet_parking.WaiterQueue.System.{HasNode}
use valet_parking.PosixParker.{ParkPc, is_outside}
use valet_parking.PosixWaiters.System.{has_node}
use valet_parking.PosixWaiters.Parking.{Goes}

-- A thread in a node that was not unparked is in `park` and has no notify bit; one that was unparked
abbrev pub Linked : Pc → (atomic : ℕ) → ParkPc → Type 0
Linked (waiting e p n false) a q = (a % 2 ≡ 0) × (is_outside q ≡ false)
Linked (waiting e p n true) a q = (a % 2 ≡ 1) ⊎ (is_outside q ≡ true)
Linked pc a q = is_outside q ≡ true

pub Goes-Linked :
    (pc : Pc) (a : ℕ) (p : ParkPc) (b : ℕ) (q : ParkPc)
    → Goes a p b q
    → Linked pc a p
    → Linked pc b q
Goes-Linked (waiting e p n false) a r b q g l = ground arith
Goes-Linked (waiting e p n true) a r b q g l = ground arith
Goes-Linked outside a r b q g l = ground arith
Goes-Linked (loading e) a r b q g l = ground arith
Goes-Linked (trying e c) a r b q g l = ground arith
Goes-Linked (reloading e) a r b q g l = ground arith
Goes-Linked (swapping new) a r b q g l = ground arith
Goes-Linked (walking p) a r b q g l = ground arith
Goes-Linked (unparking p n) a r b q g l = ground arith

-- A thread without a node.
pub not_in_park :
    (pc : Pc) (a : ℕ) (p : ParkPc) → has_node pc ≡ false → Linked pc a p → is_outside p ≡ true
not_in_park (waiting e q n u) a p h l = cc
not_in_park outside a p h l = l
not_in_park (loading e) a p h l = l
not_in_park (trying e c) a p h l = l
not_in_park (reloading e) a p h l = l
not_in_park (swapping new) a p h l = l
not_in_park (walking q) a p h l = l
not_in_park (unparking q n) a p h l = l

pub stays_out :
    (pc : Pc) (a : ℕ) (p : ParkPc) → has_node pc ≡ false → is_outside p ≡ true → Linked pc a p
stays_out (waiting e q n u) a p h l = cc
stays_out outside a p h l = l
stays_out (loading e) a p h l = l
stays_out (trying e c) a p h l = l
stays_out (reloading e) a p h l = l
stays_out (swapping new) a p h l = l
stays_out (walking q) a p h l = l
stays_out (unparking q n) a p h l = l

pub walk-has_node : (n : ℕ) (pc : Pc) → has_node pc ≡ false → has_node (walk n pc) ≡ false
unfolding walk
walk-has_node n (walking p) h = elim (Bool-cases (p == 0)) [
  | inl end ↦ ground arith
  | inr more ↦ ground arith
]
walk-has_node n pc h = h

module _ (t : Target) where
  pub storing-Linked :
      (word : ℕ) (pc : Pc) (a : ℕ) (p : ParkPc)
      → Linked pc a p
      → Linked (store_and_wake t word pc).pc a p
  unfolding store_and_wake
  storing-Linked word (swapping new) a p l = l
  storing-Linked word pc a p l = l

  module _ (node word : ℕ) where
    -- An access that makes no node.
    pub comparing-has_node :
        (pc : Pc) → has_node (compare_and_wait t node word pc).pc ≡ false → has_node pc ≡ false
    unfolding compare_and_wait
    comparing-has_node (waiting e p n u) h = h
    comparing-has_node pc h = refl

    -- Where an access makes a node, the thread was in the loop, and it waits, not unparked.
    pub comparing_makes :
        (pc : Pc)
        → HasNode (compare_and_wait t node word pc).pc node
        → (HasNode pc node → ⊥)
        → (e : ℕ) × (n : ℕ) × ((compare_and_wait t node word pc).pc ≡ waiting e node n false)
          × (Queue.is_outside pc ≡ false)
    unfolding compare_and_wait
    comparing_makes (trying e c) made apart = elim (Bool-cases (pub_bits t c == e)) [
      | inl same ↦ elim (Bool-cases (word == c)) [
        | inl current ↦ (e, first t c, ground arith, refl)
        | inr changed ↦ absurd (ground arith)
      ]
      | inr other ↦ absurd (ground arith)
    ]
    comparing_makes (waiting e p n u) made apart = absurd (apart made)
    comparing_makes pc made apart = absurd made
