-- ===== src/PosixParker/Accesses.antt =====
-- One access of the atomic, in `park` or in `unpark`, keeps what the invariant says.
use valet_parking.Prelude.{ℕ, ◌≤◌, ◌≡◌, ◌⊎◌, Bool, true, false, arith}
use valet_parking.Prelude.Bits.{bit_and-one, bit_or-one, zero-bit_or}
use valet_parking.Word.{Target, shr_usize}
use valet_parking.PosixParker.{
  untimed, ParkPc, outside, locking, loading, trying, entering, blocked, relocking, woken,
  finishing, UnparkPc, idle, locking_at, park, unpark,
}
use valet_parking.PosixParker.System.{Mutex, IsAddress}
use valet_parking.Reserved.Fields.{field-pos}
use valet_parking.PosixParker.Words.{field-half, and_mask, and_ptr_bits, and_not_notify, ptr_lem}
use valet_parking.PosixParker.Invariant.{Holds, Published, Agrees}

module _ (t : Target) (size : 1 ≤ t.usize_bytes) (debug : Bool) where
  -- One access of the atomic in `park`, with the active `unpark` at `u`.
  pub parks-Agrees :
      {addr : ℕ} (a : ℕ) (m : Mutex) (pc : ParkPc) (u : UnparkPc)
      → IsAddress t addr
      → Holds m u
      → Agrees addr a m pc u
      → Agrees addr
          (park t debug (shr_usize addr 5) a pc).atomic
          m
          (park t debug (shr_usize addr 5) a pc).pc
          u
  unfolding park
  parks-Agrees a m (loading limit) u ok h g = ground arith
  parks-Agrees {addr} a m (trying limit c) u ok h g =
      ground (arith, ptr_lem t size ok, and_mask t size c, zero-bit_or (shr_usize addr 5))
  parks-Agrees {addr} a m (woken untimed) u ok h g =
      ground (arith, ptr_lem t size ok, and_mask t size a)
  parks-Agrees {addr} a m finishing u ok h g =
      ground (arith, ptr_lem t size ok, and_not_notify t size a)
  parks-Agrees a m pc u ok h g = ground arith

  -- `unpark` either finds nothing to do, or a pointer to the `PosixParker` that is there.
  abbrev pub Found : (addr a : ℕ) (m : Mutex) (pc : ParkPc) (u : UnparkPc) → Type 0
  Found addr a m pc u =
      (((unpark t a).pc ≡ idle) × Agrees addr (unpark t a).atomic m pc u)
      ⊎ (((unpark t a).pc ≡ locking_at addr)
          × (u ≡ idle)
          × Agrees addr (unpark t a).atomic m pc (locking_at addr))

  unpark_nothing : (a : ℕ) → a ≤ 1 → ((unpark t a).pc ≡ idle) × ((unpark t a).atomic ≡ 1)
  unfolding unpark
  unpark_nothing a h = ground (
    arith,
    bit_and-one a,
    bit_or-one a,
    and_ptr_bits t size a,
    field-pos t size,
    field-half t size,
  )

  unpark-Published :
      {addr : ℕ} (a : ℕ) (left : Bool) (u : UnparkPc)
      → IsAddress t addr
      → Published addr a left u
      → (((unpark t a).pc ≡ idle) × Published addr (unpark t a).atomic left u)
        ⊎ (((unpark t a).pc ≡ locking_at addr)
            × (u ≡ idle)
            × Published addr (unpark t a).atomic left (locking_at addr))
  unfolding unpark
  unpark-Published {addr} a left u ok g = ground (
    arith,
    ptr_lem t size ok,
    bit_and-one a,
    bit_or-one a,
    and_ptr_bits t size a,
    and_ptr_bits t size (shr_usize addr 5),
  )

  pub unpark-Found :
      {addr : ℕ} (a : ℕ) (m : Mutex) (pc : ParkPc) (u : UnparkPc)
      → IsAddress t addr
      → Agrees addr a m pc u
      → Found addr a m pc u
  unpark-Found a m outside u ok g = ground (arith, unpark_nothing a)
  unpark-Found a m (locking limit) u ok g = ground (arith, unpark_nothing a)
  unpark-Found a m (loading limit) u ok g = ground (arith, unpark_nothing a)
  unpark-Found a m (trying limit c) u ok g = ground (arith, unpark_nothing a)
  unpark-Found a m (entering untimed) u ok g = ground (arith, unpark-Published a false u ok g.0)
  unpark-Found a m (blocked untimed) u ok g = ground (arith, unpark-Published a false u ok g.0)
  unpark-Found a m (relocking untimed) u ok g = ground (arith, unpark-Published a true u ok g.0)
  unpark-Found a m (woken untimed) u ok g = ground (arith, unpark-Published a true u ok g.0)
  unpark-Found a m pc u ok g = ground (arith, unpark_nothing a)
