-- ===== src/PosixParker.antt =====
-- src/posix.rs, the Parker over a mutex and a condition variable that lie on the stack of the thread
-- that parks. Its address, without the five low bits, stands in the reserved bits of the atomic.
-- `park` and `unpark` are cut at their accesses of the atomic and at their pthread calls.
pub mod Words
pub mod System
pub mod Invariant
pub mod Accesses
pub mod Steps
pub mod Progress
pub mod Liveness
pub mod Safety
pub mod Timeouts
pub mod Refinement
mod Examples
use valet_parking.Prelude.{
  ℕ, bit_and, bit_or, bit_xor, Bool, true, false, ◌||◌, not, ◌==◌, if◌then◌else◌,
}
use valet_parking.Word.{Target, not_usize, shl_usize}
use valet_parking.Reserved.{free_bits, reserved_mask}

abbrev pub notify_bit : ℕ
notify_bit = 1

abbrev pub ptr_bits : Target → ℕ
ptr_bits t = bit_xor (reserved_mask t) notify_bit

-- Which wait on the condition variable: that of `condvar_wait`, and the first and the second of
-- `condvar_wait_timed`.
pub data Waiting : Type 0 where
  untimed timed last : Waiting

-- Where `park` stands. The flag is whether `convert_timeout` gave a time limit.
pub data ParkPc : Type 0 where
  outside : ParkPc
  locking : (limit : Bool) → ParkPc  -- before `pthread_mutex_lock`
  loading : (limit : Bool) → ParkPc  -- before the first `load`
  trying : (limit : Bool) (current : ℕ) → ParkPc  -- head of the loop
  entering : Waiting → ParkPc  -- before the wait, with the mutex
  blocked : Waiting → ParkPc  -- in the wait
  relocking : Waiting → ParkPc  -- in the wait, about to lock the mutex again
  woken : Waiting → ParkPc  -- after the wait, with the mutex
  clearing : (current : ℕ) → ParkPc  -- the loop of `condvar_wait_timed`
  unlocking : ParkPc  -- before `pthread_mutex_unlock`
  destroying : ParkPc  -- before the two destroy calls
  finishing : ParkPc  -- before the `fetch_and`
  panicked : ParkPc

abbrev pub is_outside : ParkPc → Bool
is_outside outside = true
is_outside pc = false

-- Where `unpark` stands, with the pointer that it has read.
pub data UnparkPc : Type 0 where
  idle : UnparkPc
  locking_at : (ptr : ℕ) → UnparkPc  -- before `pthread_mutex_lock`
  holding : (ptr : ℕ) → UnparkPc  -- before the `fetch_and`
  signalling : (ptr : ℕ) → UnparkPc  -- before `pthread_cond_signal`
  releasing : (ptr : ℕ) → UnparkPc  -- before `pthread_mutex_unlock`

pub record After (Pc : Type 0) : Type 0 where
  pub atomic : ℕ
  pub pc : Pc

abbrev pub waiting : Bool → Waiting
waiting true = timed
waiting false = untimed

module _ (t : Target) where
  abbrev pub is_notified : ℕ → Bool
  is_notified a = bit_and a (reserved_mask t) == notify_bit

  abbrev pub has_notify_bit : ℕ → Bool
  has_notify_bit a = bit_and a notify_bit == notify_bit

  -- The accesses of the atomic in `park`, `condvar_wait` and `condvar_wait_timed`; `ptr` is the
  -- address of the `PosixParker` shifted right.
  unfoldable pub park : (debug : Bool) (ptr : ℕ) → ℕ → ParkPc → After ParkPc
  park debug ptr a (loading limit) = record { atomic = a; pc = trying limit a }
  park debug ptr a (trying limit current) =
      if is_notified current
      then record { atomic = a; pc = unlocking }
      else if a == current
      then record { atomic = bit_or current ptr; pc = entering (waiting limit) }
      else record { atomic = a; pc = trying limit a }
  park debug ptr a (woken untimed) = record {
    atomic = a;
    pc = if is_notified a then unlocking else entering untimed;
  }
  park debug ptr a (woken timed) = record {
    atomic = a;
    pc = if has_notify_bit a then unlocking else clearing a;
  }
  park debug ptr a (woken last) = record {
    atomic = a;
    pc = if is_notified a || not debug then unlocking else panicked;
  }
  park debug ptr a (clearing current) =
      if a == current
      then record { atomic = bit_and current (not_usize t (reserved_mask t)); pc = unlocking }
      else record { atomic = a; pc = if has_notify_bit a then entering last else clearing current }
  park debug ptr a finishing = record { atomic = bit_and a (not_usize t notify_bit); pc = outside }
  park debug ptr a pc = record { atomic = a; pc = pc }

  -- `unpark` up to its first pthread call.
  unfoldable pub unpark : ℕ → After UnparkPc
  unpark old = record {
    atomic = bit_or old notify_bit;
    pc =
        if has_notify_bit old
        then idle
        else if bit_and old (ptr_bits t) == 0
        then idle
        else locking_at (shl_usize t (bit_and old (ptr_bits t)) free_bits);
  }

  -- `atomic.fetch_and(!PTR_BITS)`.
  unfoldable pub clear_ptr : ℕ → ℕ
  clear_ptr a = bit_and a (not_usize t (ptr_bits t))

-- `pthread_cond_signal`, and the end of a wait for any other reason.
unfoldable pub signal : ParkPc → ParkPc
signal (blocked w) = relocking w
signal pc = pc
