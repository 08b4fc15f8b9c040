-- ===== src/Keyed/Waiters/Safety.antt =====
-- What the count in the reserved bits promises, and what it does not.
use valet_parking.Prelude.{ℕ, suc, ◌≤◌, ◌<◌, ◌≡◌, ◌≢◌, true, bit_and, ◌∙◌}
use valet_parking.Prelude.Count.{count}
use valet_parking.Word.{Target}
use valet_parking.Reserved.{reserved_mask}
use valet_parking.Reserved.Fields.{field, reserved_lem}
use valet_parking.Keyed.Waiters.{releasing, pub_bits}
use valet_parking.Keyed.Waiters.System.{System, Reach}
use valet_parking.Keyed.Waiters.Invariant.{Waits, Reach-Inv}

-- With fewer threads than the reserved bits can count, in every reachable state of Waiters over
-- keyed events the reserved bits are the number of registered threads, those that counted
-- themselves after the last write of the atomic; and a registered thread is in its wait, with the
-- value of the atomic as the value it expects.
pub keyed_counter_is_exact :
    (t : Target) (size : 1 ≤ t.usize_bytes) (threads : ℕ)
    → threads < field t
    → {s : System} → Reach t threads s
    → (bit_and s.atomic (reserved_mask t) ≡ count s.registered threads)
      × ((i : ℕ) → s.registered i ≡ true → Waits (s.pc i) (pub_bits t s.atomic))
keyed_counter_is_exact t size threads few {s} r =
    let inv = Reach-Inv t size threads few r in
    (reserved_lem t size s.atomic ∙ inv.counter, inv.waits)

-- No thread is about to release an event.
abbrev pub Exhausted : System → Type 0
Exhausted s = (k left : ℕ) → s.pc k ≢ releasing (suc left)
