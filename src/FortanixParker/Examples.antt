-- ===== src/FortanixParker/Examples.antt =====
-- A run of the Parker over usercalls on a 64-bit target, and the theorems at its end.
use valet_parking.Prelude.{◌≡◌, ◌≤◌, false, arith, refl, ℕ_discrete}
use valet_parking.Word.{Target}
use valet_parking.PosixParker.System.{IsAddress}
use valet_parking.FortanixParker.{park, unpark, clear_ptr, wait_ends}
use valet_parking.FortanixParker.System.{
  System, Reach, start, later, call_park, parking, wakes, call_unpark, reads, clears, sends,
}
use valet_parking.FortanixParker.Safety.{fortanix_serves_once}

abbrev target : Target
target = record { usize_bytes = 8; big_endian = false }

size : 1 ≤ target.usize_bytes
size = omega arith

frame : IsAddress target 64
frame = record { aligned = refl; nonnull = omega arith; fits = omega arith }

-- The thread waits, and thread 0 has notified it and cleared the pointer.
notified : (s : System) × Reach target s
unfolding park unpark clear_ptr ℕ_discrete
notified = (
  _,
  later
      (later
        (later
          (later
            (later (later (later (start 64 frame) (call_park false 64 refl frame)) parking) parking)
            parking)
          (call_unpark 0 refl))
        (reads 0 refl refl))
      (clears 0 refl),
)

-- `park` has returned, and has been called once more.
again : (s : System) × Reach target s
unfolding notified park wait_ends ℕ_discrete
again = (
  _,
  later
      (later (later (later (later notified.1 (sends 0 refl)) wakes) parking)
        (call_park false 64 refl frame))
      parking,
)

fortanix_serves_once_example : (again.0.faulted ≡ false) × (again.0.returns ≤ 1)
fortanix_serves_once_example = fortanix_serves_once target size again.1
