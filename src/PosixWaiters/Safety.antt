-- ===== src/PosixWaiters/Safety.antt =====
-- The memory that `unpark` uses, when the list calls it.
use valet_parking.Prelude.{ℕ, ◌%◌, ◌≤◌, ◌≡◌, ◌≢◌, ◌⊎◌, Bool, true, false, refl, arith, inl, inr}
use valet_parking.Word.{Target}
use valet_parking.WaiterQueue.{
  Pc, outside, loading, trying, waiting, reloading, swapping, walking, unparking,
}
use valet_parking.WaiterQueue.Steps as Queue
use valet_parking.PosixParker.{
  ParkPc, UnparkPc, is_outside, idle, locking_at, holding, signalling, releasing,
}
use valet_parking.PosixParker.Invariant.{Inv as ParkerInv}
use valet_parking.PosixParker.Steps as Parker
use valet_parking.PosixWaiters.System.{System, Reach}
use valet_parking.PosixWaiters.Parking.{busy_lem}
use valet_parking.PosixWaiters.Linked.{Linked}
use valet_parking.PosixWaiters.Invariant.{Inv, Reach-Fits}

-- A thread with its notify bit set, in `park`.
notified_in_node :
    (pc : Pc) (a : ℕ) (p : ParkPc)
    → Linked pc a p
    → (a % 2 ≡ 1) × (is_outside p ≡ false)
    → (e : ℕ) × (q : ℕ) × (n : ℕ) × (pc ≡ waiting e q n true)
notified_in_node (waiting e q n true) a p l h = (e, q, n, refl)
notified_in_node (waiting e q n false) a p l h = absurd (ground arith)
notified_in_node outside a p l h = absurd (ground arith)
notified_in_node (loading e) a p l h = absurd (ground arith)
notified_in_node (trying e c) a p l h = absurd (ground arith)
notified_in_node (reloading e) a p l h = absurd (ground arith)
notified_in_node (swapping new) a p l h = absurd (ground arith)
notified_in_node (walking q) a p l h = absurd (ground arith)
notified_in_node (unparking q n) a p l h = absurd (ground arith)

pub idle-cases : (u : UnparkPc) → (u ≡ idle) ⊎ (u ≢ idle)
idle-cases idle = inl refl
idle-cases (locking_at p) = inr (λ e. cc)
idle-cases (holding p) = inr (λ e. cc)
idle-cases (signalling p) = inr (λ e. cc)
idle-cases (releasing p) = inr (λ e. cc)

module _ (t : Target) (size : 1 ≤ t.usize_bytes) (debug : Bool) where
  pub parker-Inv : {s : System} (k : ℕ) → Inv t debug s → ParkerInv t (s.parker k)
  parker-Inv k inv = Parker.Reach-Inv t size debug (inv.parkers k)

  -- In every reachable state of the Waiters on Posix, no pointer to a node or to a PosixParker
  -- that was gone has been used, and whenever a thread is in unpark on the Parker in the node of
  -- another thread, past its first access of it, that node is still there: the other thread waits
  -- in it, was unparked, and is still in park.
  pub node_outlives_unpark :
      {s : System} (i k : ℕ)
      → Reach t debug s
      → (s.queue.faulted ≡ false)
        × ((s.parker k).faulted ≡ false)
        × (((s.parker k).unparker i ≡ idle)
            ⊎ ((e : ℕ) × (p : ℕ) × (n : ℕ) × (s.queue.pc k ≡ waiting e p n true)
                × (is_outside (s.parker k).parker ≡ false)))
  node_outlives_unpark {s} i k r =
      let inv = Reach-Fits t size debug r in
      let parker = parker-Inv k inv in
      (
        (Queue.Reach-Inv t size inv.queue).no_fault,
        parker.no_fault,
        elim (idle-cases ((s.parker k).unparker i)) [
          | inl at_rest ↦ inl at_rest
          | inr busy ↦
              let held = busy_lem t size debug i parker busy in
              let (e, p, n, here) = notified_in_node (s.queue.pc k) _ _ (inv.linked k) held in
              inr (e, p, n, here, held.1)
        ],
      )
