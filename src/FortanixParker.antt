-- ===== src/FortanixParker.antt =====
-- src/fortanix.rs, the Parker over usercalls of SGX: one thread that parks, any number of threads that
-- unpark it. The reserved bits hold the address of the `TcsParker` on the stack of the thread that
-- parks, without its five low bits. The code is cut at its accesses of the atomic and of that object,
-- and at its usercalls.
pub mod System
pub mod Invariant
pub mod Safety
mod Examples
use valet_parking.Prelude.{ℕ, bit_and, bit_or, bit_xor, Bool, true, false, ◌==◌, if◌then◌else◌}
use valet_parking.Word.{Target, not_usize, shl_usize}
use valet_parking.Reserved.{free_bits, reserved_mask}

abbrev pub notify_bit : ℕ
notify_bit = 1

abbrev pub ptr_bits : Target → ℕ
ptr_bits t = bit_xor (reserved_mask t) notify_bit

-- Where `park` stands.
pub data ParkPc : Type 0 where
  outside : ParkPc
  called : (timed : Bool) → ParkPc  -- before the test of `timeout.is_some()`
  loading : ParkPc  -- before the first `load`
  trying : (current : ℕ) → ParkPc  -- head of the first loop
  waiting : ParkPc  -- in `usercalls::wait`
  checking : ParkPc  -- before the `load` of the second loop
  panicked : ParkPc

-- Where `unpark` stands.
pub data UnparkPc : Type 0 where
  idle : UnparkPc
  reading : (ptr : ℕ) → UnparkPc  -- before it reads `(*ptr).tcs`
  clearing : UnparkPc  -- before the `fetch_and`
  sending : UnparkPc  -- before `usercalls::send`

pub record After (Pc : Type 0) : Type 0 where
  pub atomic : ℕ
  pub pc : Pc

module _ (t : Target) where
  -- `ptr` is the address of the `TcsParker` shifted right.
  unfoldable pub park : (ptr : ℕ) → ℕ → ParkPc → After ParkPc
  park ptr a (called timed) = record { atomic = a; pc = if timed then panicked else loading }
  park ptr a loading = record { atomic = a; pc = trying a }
  park ptr a (trying current) =
      if bit_and current (reserved_mask t) == 0
      then (if a == current
          then record { atomic = bit_or current ptr; pc = waiting }
          else record { atomic = a; pc = trying a })
      else record { atomic = a; pc = panicked }
  park ptr a checking = record {
    atomic = a;
    pc = if bit_and a (reserved_mask t) == notify_bit then outside else waiting;
  }
  park ptr a pc = record { atomic = a; pc = pc }

  -- `unpark` up to the read of the `TcsParker`.
  unfoldable pub unpark : ℕ → After UnparkPc
  unpark old = record {
    atomic = bit_or old notify_bit;
    pc =
        if bit_and old notify_bit == notify_bit
        then idle
        else if bit_and old (ptr_bits t) == 0
        then idle
        else reading (shl_usize t (bit_and old (ptr_bits t)) free_bits);
  }

  -- `atomic.fetch_and(!PTR_BITS)`.
  unfoldable pub clear_ptr : ℕ → ℕ
  clear_ptr a = bit_and a (not_usize t (ptr_bits t))

-- `usercalls::wait` ends, by an event or for no reason.
unfoldable pub wait_ends : ParkPc → ParkPc
wait_ends waiting = checking
wait_ends pc = pc
