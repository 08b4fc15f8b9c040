-- ===== src/Futex/Examples.antt =====
-- The theorems on `wait` and `wake` with concrete kernels.
use valet_parking.Prelude.{ℕ, ◌+◌, ◌≡◌, ◌≢◌, ◌↔◌, true, false, some, arith, refl}
use valet_parking.Prelude.Int.{pos, negsuc}
use valet_parking.Word.{Target, usize_mod, i64_max}
use valet_parking.Timeout.Duration.{Duration, IsDuration, rounded, forever}
use valet_parking.Timeout.Rounding.{timespec_limit}
use valet_parking.Futex.{timed_out, ok}
use valet_parking.Futex.Linux
use valet_parking.Futex.FreeBsd
use valet_parking.Futex.OpenBsd
use valet_parking.Futex.Redox
use valet_parking.Futex.Darwin
use valet_parking.Futex.Fuchsia
use valet_parking.Futex.Wasm
use valet_parking.Futex.DragonFly
use valet_parking.Futex.Windows
use valet_parking.Futex.Reasons.{timespec_timed_out}
use valet_parking.Futex.WakeCount.{wake_error_count}

abbrev tenth : Duration
tenth = record { as_secs = 0; subsec_nanos = 100_000_000 }

tenth-IsDuration : IsDuration tenth
tenth-IsDuration = record { secs_fit = omega arith; nanos_fit = omega arith }

-- A Linux kernel on which every wait times out, and which wakes three threads.
abbrev linux : Linux.System
linux = record {
  futex_wait = 0;
  futex_wake = 1;
  futex_private_flag = 128;
  eagain = 11;
  eintr = 4;
  etimedout = 110;
  time_t_max = i64_max;
  futex = λ op val timeout. (negsuc 0, 110);
}

linux-IsSystem : Linux.IsSystem linux
linux-IsSystem = record { timeout_not_again = omega arith; timeout_not_interrupt = omega arith }

abbrev freebsd : FreeBsd.System
freebsd = record {
  eintr = 4;
  etimedout = 60;
  time_t_max = i64_max;
  clock_monotonic = 4;
  size_of_umtx_time = 24;
  umtx_op = λ op val size timeout. (negsuc 0, 60);
}

freebsd-IsSystem : FreeBsd.IsSystem freebsd
freebsd-IsSystem = record { timeout_not_interrupt = omega arith }

abbrev openbsd : OpenBsd.System
openbsd = record {
  eagain = 35;
  eintr = 4;
  ecanceled = 88;
  etimedout = 60;
  time_t_max = i64_max;
  futex = λ op val timeout. pos 60;
}

openbsd-IsSystem : OpenBsd.IsSystem openbsd
openbsd-IsSystem = record {
  timeout_positive = omega arith;
  timeout_not_again = omega arith;
  timeout_not_interrupt = omega arith;
  timeout_not_canceled = omega arith;
}

abbrev redox : Redox.System
redox = record {
  futex_wait = 0;
  futex_wake = 1;
  eagain = 11;
  eintr = 4;
  etimedout = 110;
  futex = λ op val timeout. Redox.failed 110;
}

redox-IsSystem : Redox.IsSystem redox
redox-IsSystem = record { timeout_not_again = omega arith; timeout_not_interrupt = omega arith }

abbrev darwin : Darwin.System
darwin = record {
  eintr = 4;
  etimedout = 60;
  enoent = 2;
  ulock_wait = λ op value timeout. (negsuc 0, 60);
  ulock_wake = λ op value. (pos 0, 0);
}

darwin-IsSystem : Darwin.IsSystem darwin
darwin-IsSystem = record { timeout_not_interrupt = omega arith }

abbrev dragonfly : DragonFly.System
dragonfly = record {
  ebusy = 16;
  eintr = 4;
  ewouldblock = 35;
  umtx_sleep = λ value timeout. (negsuc 0, 35);
  umtx_wakeup = λ count. negsuc 0;
}

timespec_timed_out_example :
    ((Linux.wait true linux 1 (some tenth) ≡ ok timed_out) ↔ (
      (Linux.answer true linux 1 (some tenth) ≡ (negsuc 0, 110))
      × (rounded 1 (timespec_limit i64_max) (some tenth) ≢ forever)))
    × ((FreeBsd.wait true freebsd 1 (some tenth) ≡ ok timed_out) ↔ (
        (FreeBsd.answer true freebsd 1 (some tenth) ≡ (negsuc 0, 60))
        × (rounded 1 (timespec_limit i64_max) (some tenth) ≢ forever)))
    × ((OpenBsd.wait true openbsd 1 (some tenth) ≡ ok timed_out) ↔ (
        (OpenBsd.answer true openbsd 1 (some tenth) ≡ pos 60)
        × (rounded 1 (timespec_limit i64_max) (some tenth) ≢ forever)))
    × ((Redox.wait true redox 1 (some tenth) ≡ ok timed_out) ↔ (
        (Redox.answer true redox 1 (some tenth) ≡ Redox.failed 110)
        × (rounded 1 (timespec_limit i64_max) (some tenth) ≢ forever)))
timespec_timed_out_example =
    timespec_timed_out true 1 (some tenth) tenth-IsDuration linux freebsd openbsd redox
      linux-IsSystem freebsd-IsSystem openbsd-IsSystem redox-IsSystem

abbrev fuchsia : Fuchsia.System
fuchsia = record {
  zx_deadline_after = λ n. n;
  zx_futex_wait = λ expected deadline. negsuc 20;
  zx_futex_wake = λ count. pos 0;
}

abbrev wasm : Wasm.System
wasm = record { i32_atomic_wait = λ expected timeout. pos 2; atomic_notify = λ count. 3 }

abbrev amd64 : Target
amd64 = record { usize_bytes = 8; big_endian = false }

wake_error_count_example :
    (m : ℕ) × (DragonFly.wake false dragonfly amd64 ≡ ok m) × (m + 0 + 1 ≡ usize_mod amd64)
wake_error_count_example = (wake_error_count amd64 0 (omega arith)).3 dragonfly refl
