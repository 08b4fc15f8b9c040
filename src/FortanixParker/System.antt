-- ===== src/FortanixParker/System.antt =====
-- The thread that parks and the threads that unpark it.
use valet_parking.Prelude.{ℕ, ◌+◌, ◌≡◌, Bool, true, false, ◌&&◌, ◌==◌, if◌then◌else◌, bit_and}
use valet_parking.Prelude.Family.{update}
use valet_parking.Word.{Target, shr_usize}
use valet_parking.Reserved.{free_bits, reserved_mask}
use valet_parking.PosixParker.System.{IsAddress}
use valet_parking.FortanixParker.{
  ParkPc, outside, called, waiting, checking, UnparkPc, idle, reading, clearing, sending,
  notify_bit, park, unpark, clear_ptr, wait_ends,
}

-- `addr` is where the `TcsParker` of the current or latest call lies. `returns` counts the returns of
-- `park`, and `faulted` says whether `unpark` has read a `TcsParker` that was gone.
pub record System : Type 0 where
  pub atomic : ℕ
  pub parker : ParkPc
  pub unparker : ℕ → UnparkPc
  pub addr : ℕ
  pub returns : ℕ
  pub faulted : Bool

abbrev pub init : ℕ → System
init addr = record {
  atomic = 0;
  parker = outside;
  unparker = λ _. idle;
  addr = addr;
  returns = 0;
  faulted = false;
}

-- The `TcsParker` that a published pointer leads to is there while `park` waits.
abbrev pub lives : ParkPc → Bool
lives waiting = true
lives checking = true
lives pc = false

abbrev pub alive : System → ℕ → Bool
alive s p = lives s.parker && s.addr == p

module _ (t : Target) where
  abbrev pub ends : ℕ → ParkPc → ℕ
  ends a checking = if bit_and a (reserved_mask t) == notify_bit then 1 else 0
  ends a pc = 0

  abbrev pub parks : System → System
  parks s = record s {
    atomic = (park t (shr_usize s.addr free_bits) s.atomic s.parker).atomic;
    parker = (park t (shr_usize s.addr free_bits) s.atomic s.parker).pc;
    returns = s.returns + ends s.atomic s.parker;
  }

  abbrev pub unparks_by : ℕ → System → System
  unparks_by i s = record s {
    atomic = (unpark t s.atomic).atomic;
    unparker = update s.unparker i (unpark t s.atomic).pc;
  }

  pub data Step (s : System) : System → Type 0 where
    call_park :
        (timed : Bool) (a : ℕ)
        → s.parker ≡ outside
        → IsAddress t a
        → Step s (record s { parker = called timed; addr = a })
    parking : Step s (parks s)
    wakes : Step s (record s { parker = wait_ends s.parker })
    call_unpark : (i : ℕ) → s.unparker i ≡ idle → Step s (unparks_by i s)
    reads :
        (i : ℕ) {p : ℕ}
        → s.unparker i ≡ reading p
        → alive s p ≡ true
        → Step s (record s { unparker = update s.unparker i clearing })
    clears :
        (i : ℕ)
        → s.unparker i ≡ clearing
        → Step s
            (record s { atomic = clear_ptr t s.atomic; unparker = update s.unparker i sending })
    sends :
        (i : ℕ) → s.unparker i ≡ sending → Step s (record s { unparker = update s.unparker i idle })
    dangles :
        (i : ℕ) {p : ℕ}
        → s.unparker i ≡ reading p
        → alive s p ≡ false
        → Step s (record s { faulted = true })

  pub data Reach : System → Type 0 where
    start : (a : ℕ) → IsAddress t a → Reach (init a)
    later : {s u : System} → Reach s → Step s u → Reach u
