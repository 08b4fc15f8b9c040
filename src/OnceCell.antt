-- ===== src/OnceCell.antt =====
-- `OnceCell` of src/examples/test_synchronization.rs, a cell that is written once, by the first of the
-- threads that ask for it, while the others wait: a client of `Waiters`. The code is cut at its
-- accesses of the atomic and of the cell, and at its calls of `Waiters`.
pub mod System
pub mod Invariant
pub mod Words
pub mod Accesses
pub mod Others
pub mod Steps
pub mod Kept
pub mod Offered
pub mod Safety
pub mod Loop
pub mod Progress
pub mod Liveness
pub mod Return
pub mod OnPosix
pub mod Following
pub mod Composed
mod Examples
use valet_parking.Prelude.{
  ℕ, ◌*◌, ◌^◌, bit_and, Bool, true, false, ◌==◌, Option, none, some, if◌then◌else◌,
}
use valet_parking.Word.{Target, not_usize}
use valet_parking.Reserved.{reserved_bits, reserved_mask}

-- Where a thread stands. In `get_or_init` it carries the value that it was given.
pub data Pc {ℓ} (A : Type ℓ) : Type ℓ where
  outside : Pc A
  -- in `get`, which `get_or_init` calls first
  getting : (init : Option A) → Pc A  -- before the `load`
  reading : (init : Option A) → Pc A  -- before it reads the cell
  -- in `init`
  loading : (value : A) → Pc A  -- before the first `load`
  matching : (value : A) (state : ℕ) → Pc A  -- head of the loop
  writing : (value : A) → Pc A  -- before it writes the cell
  waking : Pc A  -- before `store_and_wake`
  storing : Pc A  -- in it
  asserting : Pc A  -- before the `load` in `assert!`
  sleeping : (value : A) → Pc A  -- before `compare_and_wait`
  waiting : (value : A) → Pc A  -- in it
  reloading : (value : A) → Pc A  -- after it, before the `load`
  unwrapping : Pc A  -- in the last `get`, before the `load`
  unwrapping_cell : Pc A  -- in it, before it reads the cell
  -- with what the call returned
  returned : (result : Option A) → Pc A
  panicked : Pc A

module _ (t : Target) where
  abbrev pub incomplete : ℕ
  incomplete = 0 * 2 ^ reserved_bits t

  abbrev pub running : ℕ
  running = 1 * 2 ^ reserved_bits t

  abbrev pub complete : ℕ
  complete = 2 * 2 ^ reserved_bits t

  abbrev pub pub_bits : ℕ → ℕ
  pub_bits a = bit_and a (not_usize t (reserved_mask t))

-- `get` has found nothing: `get_or_init` goes on with `init`.
abbrev pub declines {ℓ} : {A : Type ℓ} → Option A → Pc A
declines none = returned none
declines (some value) = loading value

-- The read of the cell.
unfoldable pub read {ℓ} : {A : Type ℓ} → (cell : Option A) → Pc A → Pc A
read (some v) (reading init) = returned (some v)
read none (reading init) = declines init
read (some v) unwrapping_cell = returned (some v)
read none unwrapping_cell = panicked
read cell pc = pc

pub record After {ℓ} (A : Type ℓ) : Type ℓ where
  pub exchanges : Bool
  pub pc : Pc A

module _ {ℓ} {A : Type ℓ} (t : Target) where
  -- The accesses of the atomic, which reads `word`. `exchanges` says whether a `compare_and_swap` has
  -- put `RUNNING` in its place.
  unfoldable pub access : (word : ℕ) → Pc A → After A
  access word (getting init) = record {
    exchanges = false;
    pc = if word == complete t then reading init else declines init;
  }
  access word (loading value) = record { exchanges = false; pc = matching value word }
  access word (matching value state) =
      if state == complete t
      then record { exchanges = false; pc = unwrapping }
      else if state == incomplete t
      then (if word == state
          then record { exchanges = true; pc = writing value }
          else record { exchanges = false; pc = matching value word })
      else record {
        exchanges = false;
        pc = if pub_bits t state == running t then sleeping value else panicked;
      }
  access word asserting = record {
    exchanges = false;
    pc = if pub_bits t word == complete t then unwrapping else panicked;
  }
  access word (reloading value) = record { exchanges = false; pc = matching value word }
  access word unwrapping = record {
    exchanges = false;
    pc = if word == complete t then unwrapping_cell else panicked;
  }
  access word pc = record { exchanges = false; pc = pc }
