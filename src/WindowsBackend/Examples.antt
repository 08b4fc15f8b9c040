-- ===== src/WindowsBackend/Examples.antt =====
-- Runs on a Windows with NT keyed events alone, and on one with neither, and the theorems at their ends.
use valet_parking.Prelude.{ℕ, ◌≡◌, ◌⊎◌, none, some, false, refl, ℕ_discrete}
use valet_parking.WindowsBackend.{
  Api, Dll, synch, kernel, Backend, keyed, spinning, get, probe, probe_wait_address,
  probe_keyed_event,
}
use valet_parking.WindowsBackend.System.{
  System, Reach, start, later, call, getting, Runs, next, done,
}
use valet_parking.WindowsBackend.Safety.{returned_backend_is_probed, panic_leaves_spinning}

abbrev modules : Dll → ℕ
modules synch = 0
modules kernel = 16

-- Without `WaitOnAddress`.
abbrev older : Api
older = record {
  get_module_handle = modules;
  get_proc_address = λ dll proc. 32;
  created_status = 0;
  created_handle = 8;
}

abbrev chosen : Backend
chosen = keyed 8 32 32

-- Thread 0 has made the choice, and thread 1 is about to read it.
one_returned : (s : System) × Reach (probe false older) s
unfolding get probe probe_wait_address probe_keyed_event ℕ_discrete
one_returned = (
  _,
  later
      (later
        (later
          (later
            (later (later (later (later start (call 0 refl)) (getting 0)) (getting 0)) (getting 0))
            (getting 0))
          (getting 0))
        (call 1 refl))
      (getting 1),
)

returned_backend_is_probed_example :
    (probe_wait_address false older ≡ some chosen)
    ⊎ ((probe_wait_address false older ≡ none) × (probe_keyed_event older ≡ some chosen))
unfolding one_returned
returned_backend_is_probed_example =
    returned_backend_is_probed false older 0 chosen one_returned.1 refl

-- Thread 0 has found nothing, and thread 1 waits for it.
one_panicked : (s : System) × Reach none s
unfolding get ℕ_discrete
one_panicked = (
  _,
  later
      (later
        (later
          (later (later (later (later start (call 0 refl)) (getting 0)) (getting 0)) (call 1 refl))
          (getting 1))
        (getting 1))
      (getting 0),
)

later_on : (u : System) × Runs none one_panicked.0 u
later_on = (_, next (getting 1) (done _))

panic_leaves_spinning_example : later_on.0.pc 1 ≡ spinning
unfolding one_panicked
panic_leaves_spinning_example = panic_leaves_spinning 0 1 one_panicked.1 refl refl later_on.1
