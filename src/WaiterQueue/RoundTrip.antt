-- ===== src/WaiterQueue/RoundTrip.antt =====
-- The word that `compare_and_wait` stores, as it is read again.
use valet_parking.Prelude.{ℕ, ◌≤◌, ◌<◌, ◌≡◌, arith, ap, false}
use valet_parking.Word.{Target, usize_mod}
use valet_parking.WaiterQueue.{
  trying, waiting, walking, swapping, pub_bits, first, compare_and_wait, store_and_wake,
}
use valet_parking.WaiterQueue.System.{IsNode}
use valet_parking.WaiterQueue.Words.{linked, first-linked, pub_bits-linked, linked-fits}

-- If compare_and_wait stores a node, which lies at a multiple of 32 and not at 0, in an atomic
-- whose public bits are the expected ones, then the new word fits, its public bits are the old
-- ones, the node has the old list as its next, and store_and_wake on the new word begins to walk
-- at the node.
pub linked_node_round_trip :
    (t : Target) (size : 1 ≤ t.usize_bytes) (a node new : ℕ)
    → a < usize_mod t
    → IsNode t node
    → let word = (compare_and_wait t node a (trying (pub_bits t a) a)).atomic in
      (pub_bits t word ≡ pub_bits t a)
      × ((store_and_wake t word (swapping new)).pc ≡ walking node)
      × ((compare_and_wait t node a (trying (pub_bits t a) a)).pc
          ≡ waiting (pub_bits t a) node (first t a) false)
      × (word < usize_mod t)
unfolding compare_and_wait store_and_wake
linked_node_round_trip t size a node new fits isn =
    let word : (compare_and_wait t node a (trying (pub_bits t a) a)).atomic ≡ linked t a node =
      ground arith in
    rw word (
      pub_bits-linked t size a node fits isn,
      ap walking (first-linked t size a node fits isn),
      ground arith,
      linked-fits t size a node fits isn,
    )
