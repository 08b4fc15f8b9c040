-- ===== src/FortanixParker/Safety.antt =====
-- What the Parker over usercalls keeps, and how often it can be used.
use valet_parking.Prelude.{◌≤◌, ◌≡◌, false}
use valet_parking.Word.{Target}
use valet_parking.FortanixParker.System.{System, Reach}
use valet_parking.FortanixParker.Invariant.{Reach-Inv}

module _ (t : Target) (size : 1 ≤ t.usize_bytes) where
  -- In every state that the Parker over usercalls can reach, with one thread that parks and any
  -- number that unpark it, unpark has never read a TcsParker that was gone, and park has returned
  -- at most once: nothing clears the notify bit after that.
  pub fortanix_serves_once : {s : System} → Reach t s → (s.faulted ≡ false) × (s.returns ≤ 1)
  fortanix_serves_once r = let inv = Reach-Inv t size r in (inv.no_fault, inv.once)
