-- ===== src/Darwin/System.antt =====
-- The front end of src/darwin.rs: any number of threads that ask `has_ulock`, with its answer cached in
-- HAS_ULOCK, and call the implementation that it names. The code is cut at its accesses of HAS_ULOCK
-- and at its calls.
use valet_parking.Prelude.{ℕ, ◌≡◌, Bool, true, false, leb, ◌==◌, if◌then◌else◌, List}
use valet_parking.Prelude.Family.{update}
use valet_parking.Futex.{Outcome, ok, err, panic}
use valet_parking.Darwin.Release.{get_os_release}

abbrev pub true_value : ℕ
true_value = 0

abbrev pub false_value : ℕ
false_value = 1

abbrev pub uninitialized : ℕ
uninitialized = 2

pub data Operation : Type 0 where
  compare_and_wait : Operation
  store_and_wake : Operation
  park : Operation
  unpark : Operation

pub data Implementation : Type 0 where
  futex : Implementation
  posix : Implementation

pub data Pc : Type 0 where
  outside : Pc
  loading : Operation → Pc  -- before the `load` in `has_ulock`
  asking : Operation → Pc  -- in its `get_os_release`
  storing : Operation → (answer : Bool) → Pc  -- before its `store`
  asking_again : Pc  -- in the `get_os_release` of `compare_and_wait`
  calling : Operation → Implementation → Pc
  panicked : Pc

-- The four functions, behind `has_ulock`.
abbrev pub dispatch : Operation → (has_ulock : Bool) → Pc
dispatch compare_and_wait true = asking_again
dispatch op true = calling op futex
dispatch op false = calling op posix

-- The `match` on what was loaded.
unfoldable pub has_ulock : ℕ → Pc → Pc
has_ulock a (loading op) =
    if a == true_value
    then dispatch op true
    else if a == false_value
    then dispatch op false
    else asking op
has_ulock a pc = pc

-- What is done with the release.
unfoldable pub asked : Outcome (ℕ × ℕ × ℕ) → Pc → Pc
asked (ok release) (asking op) = storing op (leb 16 release.0)
asked (ok release) asking_again = calling compare_and_wait futex
asked (ok release) pc = pc
asked err (asking op) = panicked
asked err asking_again = panicked
asked err pc = pc
asked panic (asking op) = panicked
asked panic asking_again = panicked
asked panic pc = pc

abbrev pub cached : Bool → ℕ
cached answer = if answer then true_value else false_value

pub record System : Type 0 where
  pub atomic : ℕ
  pub pc : ℕ → Pc

abbrev pub init : System
init = record { atomic = uninitialized; pc = λ _. outside }

abbrev pub moves : System → ℕ → Pc → System
moves s i pc = record s { pc = update s.pc i pc }

abbrev pub stores : System → ℕ → Operation → Bool → System
stores s i op answer = record { atomic = cached answer; pc = update s.pc i (dispatch op answer) }

-- `buf` is the text that the kernel has of its release. Any call of `sysctl` may fail.
module _ (buf : List ℕ) where
  pub data Step (s : System) : System → Type 0 where
    calls : (i : ℕ) (op : Operation) → s.pc i ≡ outside → Step s (moves s i (loading op))
    loads : (i : ℕ) → Step s (moves s i (has_ulock s.atomic (s.pc i)))
    asks :
        (i : ℕ) (failed : Bool)
        → Step s
            (moves s i (asked (get_os_release (record { failed = failed; buf = buf })) (s.pc i)))
    caches :
        (i : ℕ) (op : Operation) (answer : Bool)
        → s.pc i ≡ storing op answer
        → Step s (stores s i op answer)
    returns :
        (i : ℕ) {op : Operation} {used : Implementation}
        → s.pc i ≡ calling op used
        → Step s (moves s i outside)

  pub data Reach : System → Type 0 where
    start : Reach init
    later : {s u : System} → Reach s → Step s u → Reach u
