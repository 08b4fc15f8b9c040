-- ===== src/Darwin/Examples.antt =====
-- Releases, and threads that choose by them.
use valet_parking.Prelude.{
  ◌≡◌, true, false, leb, List, [], ◌∷◌, ◌++◌, none, some, arith, refl, ℕ, ℕ_discrete,
}
use valet_parking.Futex.{ok}
use valet_parking.Darwin.Utf8.{from_utf8}
use valet_parking.Darwin.Release.{parse, get_os_release}
use valet_parking.Darwin.Text.{IsDigits, value, clamped, dotted, os_release_is_parsed}
use valet_parking.Darwin.System.{
  store_and_wake, futex, has_ulock, asked, System, calls, loads, asks, caches, Reach, start, later,
}
use valet_parking.Darwin.Safety.{implementation, darwin_follows_release}

-- An e with an acute accent is text, and its first byte alone is not.
accent : from_utf8 (195 ∷ 169 ∷ []) ≡ some (195 ∷ 169 ∷ [])
unfolding from_utf8
accent = refl

half_accent : from_utf8 (195 ∷ []) ≡ none
unfolding from_utf8
half_accent = refl

plus : parse (43 ∷ 55 ∷ []) ≡ some 7
unfolding parse
plus = refl

-- The digits of 16 and of 7.
abbrev sixteen : List ℕ
sixteen = 49 ∷ 54 ∷ []

abbrev seven : List ℕ
seven = 55 ∷ []

sixteen-IsDigits : IsDigits sixteen
sixteen-IsDigits = (omega arith, omega arith, (omega arith, omega arith, tt))

seven-IsDigits : IsDigits seven
seven-IsDigits = (omega arith, omega arith, tt)

abbrev buf : List ℕ
buf = dotted sixteen (dotted seven seven) ++ (0 ∷ 0 ∷ [])

os_release_is_parsed_example :
    (get_os_release (record { failed = false; buf = buf }) ≡ ok (16, 7, 0))
    × (get_os_release (record { failed = false; buf = sixteen ++ (0 ∷ 0 ∷ []) }) ≡ ok (0, 0, 0))
os_release_is_parsed_example =
    os_release_is_parsed sixteen seven seven (0 ∷ []) sixteen-IsDigits seven-IsDigits seven-IsDigits

-- Thread 0 has asked, and thread 1 has found the answer in HAS_ULOCK.
called : (s : System) × Reach buf s
unfolding has_ulock asked get_os_release from_utf8 parse ℕ_discrete
called = (
  _,
  later
      (later
        (later (later (later (later start (calls 0 store_and_wake refl)) (loads 0)) (asks 0 false))
          (caches 0 store_and_wake true refl))
        (calls 1 store_and_wake refl))
      (loads 1),
)

darwin_follows_release_example : futex ≡ implementation (leb 16 (clamped (value 0 sixteen)))
unfolding called has_ulock asked get_os_release from_utf8 parse ℕ_discrete
darwin_follows_release_example =
    darwin_follows_release sixteen seven seven (0 ∷ []) sixteen-IsDigits seven-IsDigits
      seven-IsDigits 1 {op = store_and_wake} {used = futex} called.1 refl
