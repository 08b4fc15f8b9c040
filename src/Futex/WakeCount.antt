-- ===== src/Futex/WakeCount.antt =====
-- The number that `wake` reports.
use valet_parking.Prelude.{ℕ, ◌+◌, ◌-◌, ◌<◌, ◌≡◌, false, none, arith, bit_or}
use valet_parking.Prelude.Int.{ℤ, negsuc}
use valet_parking.Word.{Target, usize_mod, i32_max}
use valet_parking.Futex.{ok}
use valet_parking.Futex.Linux
use valet_parking.Futex.FreeBsd
use valet_parking.Futex.OpenBsd
use valet_parking.Futex.DragonFly

-- The answers of the four kernels to the call that `wake` makes.
abbrev pub linux_answer : Linux.System → ℤ
linux_answer s = (s.futex (bit_or s.futex_wake s.futex_private_flag) i32_max none).0

abbrev pub freebsd_answer : FreeBsd.System → ℤ
freebsd_answer s = (s.umtx_op FreeBsd.umtx_op_wake_private i32_max 0 none).0

abbrev pub openbsd_answer : OpenBsd.System → ℤ
openbsd_answer s = s.futex (bit_or OpenBsd.futex_wake OpenBsd.futex_private_flag) i32_max none

abbrev pub dragonfly_answer : DragonFly.System → ℤ
dragonfly_answer s = s.umtx_wakeup 0

module _ (t : Target) (n : ℕ) where
  -- Without debug assertions, if the kernel answers wake with the negative number -(n + 1), and n
  -- + 1 is below 2 to the width of usize, then wake on Linux, FreeBSD, OpenBSD and DragonFly BSD
  -- reports that width's power less n + 1 woken threads.
  pub wake_error_count :
      n + 1 < usize_mod t
      → ((s : Linux.System)
          → linux_answer s ≡ negsuc n
          → (m : ℕ) × (Linux.wake false s t ≡ ok m) × (m + n + 1 ≡ usize_mod t))
        × ((s : FreeBsd.System)
            → freebsd_answer s ≡ negsuc n
            → (m : ℕ) × (FreeBsd.wake false s t ≡ ok m) × (m + n + 1 ≡ usize_mod t))
        × ((s : OpenBsd.System)
            → openbsd_answer s ≡ negsuc n
            → (m : ℕ) × (OpenBsd.wake false s t ≡ ok m) × (m + n + 1 ≡ usize_mod t))
        × ((s : DragonFly.System)
            → dragonfly_answer s ≡ negsuc n
            → (m : ℕ) × (DragonFly.wake false s t ≡ ok m) × (m + n + 1 ≡ usize_mod t))
  unfolding Linux.wake FreeBsd.wake OpenBsd.wake DragonFly.wake
  wake_error_count h = (
    λ s e. (usize_mod t - 1 - n, ground arith, omega arith),
    λ s e. (usize_mod t - 1 - n, ground arith, omega arith),
    λ s e. (usize_mod t - 1 - n, ground arith, omega arith),
    λ s e. (usize_mod t - 1 - n, ground arith, omega arith),
  )
