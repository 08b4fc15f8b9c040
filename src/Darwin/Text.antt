-- ===== src/Darwin/Text.antt =====
-- What `get_os_release` makes of the text of a release.
use valet_parking.Prelude.{
  ℕ, suc, ◌+◌, ◌-◌, ◌*◌, ◌≤◌, ◌<◌, ◌≡◌, false, leb, ◌==◌, if◌then◌else◌, List, [], ◌∷◌, ◌++◌,
  Option, none, some, arith, refl, ap, ◌∙◌,
}
use valet_parking.Futex.{ok}
use valet_parking.Darwin.Utf8.{State, ready, after, scan, from_utf8}
use valet_parking.Darwin.Release.{
  text_end, take, extend, split, u16_max, checked, to_digit, and_then, from_digits, parse,
  unwrap_or, versions_of, get_os_release,
}

-- Decimal digits.
abbrev pub IsDigits : List ℕ → Type 0
IsDigits [] = Unit
IsDigits (c ∷ cs) = (48 ≤ c) × (c ≤ 57) × IsDigits cs

-- The number that they spell behind `r`, with no bound.
abbrev pub value : ℕ → List ℕ → ℕ
value r [] = r
value r (c ∷ cs) = value (r * 10 + (c - 48)) cs

le-value : (r : ℕ) (cs : List ℕ) → r ≤ value r cs
le-value r [] = omega arith
le-value r (c ∷ cs) = omega (arith, le-value (r * 10 + (c - 48)) cs)

from_digits_lem :
    (r : ℕ) (cs : List ℕ) → r ≤ u16_max → IsDigits cs → from_digits r cs ≡ checked (value r cs)
from_digits_lem r [] fits digits = ground arith
from_digits_lem r (c ∷ cs) fits (lo, hi, digits) =
    let v = r * 10 + (c - 48) in ground (arith, le-value v cs, from_digits_lem v cs)

-- A number that does not fit is taken as 0, like text that is no number.
abbrev pub clamped : ℕ → ℕ
clamped n = if leb n u16_max then n else 0

parse-digits : (cs : List ℕ) → IsDigits cs → unwrap_or 0 (parse cs) ≡ clamped (value 0 cs)
unfolding parse
parse-digits [] digits = refl
parse-digits (c ∷ []) (lo, hi, digits) = ground arith
parse-digits (c ∷ d ∷ cs) (lo, hi, digits) =
    ground (arith, from_digits_lem 0 (c ∷ d ∷ cs) (omega arith) (lo, hi, digits))

-- The 0 at the end spoils any number.
and_then-none : (o : Option ℕ) (f : ℕ → Option ℕ) → ((n : ℕ) → f n ≡ none) → and_then o f ≡ none
and_then-none none f fails = refl
and_then-none (some n) f fails = fails n

from_digits-nul : (r : ℕ) (cs : List ℕ) → from_digits r (cs ++ 0 ∷ []) ≡ none
from_digits-nul r [] = ground arith
from_digits-nul r (c ∷ cs) =
    and_then-none (checked (r * 10))
      (λ m.
        and_then (to_digit c) (λ d. and_then (checked (m + d)) (λ n. from_digits n (cs ++ 0 ∷ []))))
      (λ m.
        and_then-none (to_digit c)
          (λ d. and_then (checked (m + d)) (λ n. from_digits n (cs ++ 0 ∷ [])))
          (λ d.
            and_then-none (checked (m + d)) (λ n. from_digits n (cs ++ 0 ∷ []))
              (λ n. from_digits-nul n cs)))

parse-nul : (cs : List ℕ) → parse (cs ++ 0 ∷ []) ≡ none
unfolding parse
parse-nul [] = ground arith
parse-nul (c ∷ []) = ground (arith, from_digits-nul 0 (c ∷ []), from_digits-nul 0 [])
parse-nul (c ∷ d ∷ cs) = ground (arith, from_digits-nul 0 (c ∷ d ∷ cs), from_digits-nul 0 (d ∷ cs))

-- ASCII without a 0.
abbrev IsPlain : List ℕ → Type 0
IsPlain [] = Unit
IsPlain (c ∷ cs) = (0 < c) × (c < 128) × IsPlain cs

digits-IsPlain : (cs : List ℕ) → IsDigits cs → IsPlain cs
digits-IsPlain [] digits = tt
digits-IsPlain (c ∷ cs) (lo, hi, digits) = (omega arith, omega arith, digits-IsPlain cs digits)

-- Two pieces with a dot between them.
abbrev pub dotted : List ℕ → List ℕ → List ℕ
dotted cs ds = cs ++ (46 ∷ ds)

dotted-IsPlain : (cs ds : List ℕ) → IsPlain cs → IsPlain ds → IsPlain (cs ++ 46 ∷ ds)
dotted-IsPlain [] ds plain rest = (omega arith, omega arith, rest)
dotted-IsPlain (c ∷ cs) ds (lo, hi, plain) rest = (lo, hi, dotted-IsPlain cs ds plain rest)

-- The slice ends with the 0.
slice_lem :
    (cs rest : List ℕ)
    → IsPlain cs
    → take (text_end (cs ++ 0 ∷ rest)) (cs ++ 0 ∷ rest) ≡ cs ++ 0 ∷ []
slice_lem [] rest plain = refl
slice_lem (c ∷ cs) rest (lo, hi, plain) =
    let n : text_end (c ∷ (cs ++ 0 ∷ rest)) ≡ suc (text_end (cs ++ 0 ∷ rest)) = ground arith in
    rw n (ap (λ (x : List ℕ). c ∷ x) (slice_lem cs rest plain))

scan-plain : (cs : List ℕ) → IsPlain cs → scan ready (cs ++ 0 ∷ []) ≡ ready
scan-plain [] plain = refl
scan-plain (c ∷ cs) (lo, hi, plain) =
    let one : after ready c ≡ ready = ground arith in
    ap (λ (x : State). scan x (cs ++ 0 ∷ [])) one ∙ scan-plain cs plain

split-dotted :
    (cs ds end : List ℕ) → IsDigits cs → split (dotted cs ds ++ end) ≡ cs ∷ split (ds ++ end)
split-dotted [] ds end digits = refl
split-dotted (c ∷ cs) ds end (lo, hi, digits) =
    let test : (c == 46) ≡ false = ground arith in
    rw test (ap (extend c) (split-dotted cs ds end digits))

split-nul : (cs : List ℕ) → IsDigits cs → split (cs ++ 0 ∷ []) ≡ (cs ++ 0 ∷ []) ∷ []
split-nul [] digits = refl
split-nul (c ∷ cs) (lo, hi, digits) =
    let test : (c == 46) ≡ false = ground arith in rw test (ap (extend c) (split-nul cs digits))

-- What is made of text before the first 0.
release_lem :
    (cs rest : List ℕ)
    → IsPlain cs
    → get_os_release (record { failed = false; buf = cs ++ 0 ∷ rest })
      ≡ ok (versions_of (cs ++ 0 ∷ []))
unfolding get_os_release from_utf8
release_lem cs rest plain = rw (slice_lem cs rest plain) (rw (scan-plain cs plain) refl)

three_numbers_lem :
    (major minor patch rest : List ℕ)
    → IsDigits major
    → IsDigits minor
    → IsDigits patch
    → get_os_release
        (record { failed = false; buf = dotted major (dotted minor patch) ++ (0 ∷ rest) })
      ≡ ok (clamped (value 0 major), clamped (value 0 minor), 0)
three_numbers_lem major minor patch rest a b c =
    let plain =
      dotted-IsPlain major (dotted minor patch) (digits-IsPlain major a)
        (dotted-IsPlain minor patch (digits-IsPlain minor b) (digits-IsPlain patch c)) in
    let nul = 0 ∷ [] in
    let pieces : split (dotted major (dotted minor patch) ++ nul)
        ≡ major ∷ minor ∷ (patch ++ nul) ∷ [] =
      split-dotted major (dotted minor patch) nul a
      ∙ ap (λ (x : List (List ℕ)). major ∷ x)
          (split-dotted minor patch nul b
            ∙ ap (λ (x : List (List ℕ)). minor ∷ x) (split-nul patch c)) in
    release_lem (dotted major (dotted minor patch)) rest plain
    ∙ rw pieces (rw (parse-digits major a) (rw (parse-digits minor b) (rw (parse-nul patch) refl)))

one_number_lem :
    (major rest : List ℕ)
    → IsDigits major
    → get_os_release (record { failed = false; buf = major ++ (0 ∷ rest) }) ≡ ok (0, 0, 0)
one_number_lem major rest a =
    release_lem major rest (digits-IsPlain major a)
    ∙ rw (split-nul major a) (rw (parse-nul major) refl)

-- For the text of three decimal numbers with dots between them, followed by a 0 and anything,
-- get_os_release returns the first two numbers, each taken as 0 if it exceeds 65535, and 0 for
-- the third, which it never reads; and for the text of one decimal number, followed by a 0 and
-- anything, it returns 0 for all three.
pub os_release_is_parsed :
    (major minor patch rest : List ℕ)
    → IsDigits major
    → IsDigits minor
    → IsDigits patch
    → (get_os_release
          (record { failed = false; buf = dotted major (dotted minor patch) ++ (0 ∷ rest) })
        ≡ ok (clamped (value 0 major), clamped (value 0 minor), 0))
      × (get_os_release (record { failed = false; buf = major ++ (0 ∷ rest) }) ≡ ok (0, 0, 0))
os_release_is_parsed major minor patch rest a b c =
    (three_numbers_lem major minor patch rest a b c, one_number_lem major rest a)
