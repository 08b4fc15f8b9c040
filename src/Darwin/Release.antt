-- ===== src/Darwin/Release.antt =====
-- `get_os_release` of src/darwin.rs, and what it uses of `str`. Text is its bytes.
use valet_parking.Prelude.{
  ℕ, zero, suc, ◌+◌, ◌-◌, ◌*◌, Bool, leb, ◌==◌, ◌&&◌, ◌||◌, if◌then◌else◌, List, [], ◌∷◌, Option,
  none, some,
}
use valet_parking.Futex.{Outcome, ok, panic}
use valet_parking.Darwin.Utf8.{from_utf8}

-- What `sysctl` did: whether it returned -1, and the bytes of `buf` after it.
pub record Sysctl : Type 0 where
  pub failed : Bool
  pub buf : List ℕ

-- The bytes up to the first 0, which is counted too.
abbrev pub text_end : List ℕ → ℕ
text_end [] = 0
text_end (c ∷ cs) = if c == 0 then 1 else suc (text_end cs)

-- `&buf[0..n]`, for an `n` that is at most the length.
abbrev pub take : ℕ → List ℕ → List ℕ
take zero cs = []
take (suc n) [] = []
take (suc n) (c ∷ cs) = c ∷ take n cs

-- `split('.')`: a first piece, and the pieces behind it.
abbrev pub extend : ℕ → List (List ℕ) → List (List ℕ)
extend c [] = (c ∷ []) ∷ []
extend c (piece ∷ pieces) = (c ∷ piece) ∷ pieces

abbrev pub split : List ℕ → List (List ℕ)
split [] = [] ∷ []
split (c ∷ cs) = let pieces = split cs in if c == 46 then [] ∷ pieces else extend c pieces

-- `parse::<u16>`.
abbrev pub u16_max : ℕ
u16_max = 65535

abbrev pub checked : ℕ → Option ℕ
checked n = if leb n u16_max then some n else none

abbrev pub to_digit : ℕ → Option ℕ
to_digit c = if leb 48 c && leb c 57 then some (c - 48) else none

abbrev pub and_then : Option ℕ → (ℕ → Option ℕ) → Option ℕ
and_then none f = none
and_then (some n) f = f n

abbrev pub from_digits : ℕ → List ℕ → Option ℕ
from_digits r [] = some r
from_digits r (c ∷ cs) =
    and_then (checked (r * 10))
      (λ m. and_then (to_digit c) (λ d. and_then (checked (m + d)) (λ n. from_digits n cs)))

-- No digits, or a sign alone, are no number; `+` may stand in front.
unfoldable pub parse : List ℕ → Option ℕ
parse [] = none
parse (c ∷ []) = if c == 43 || c == 45 then none else from_digits 0 (c ∷ [])
parse (c ∷ d ∷ cs) = if c == 43 then from_digits 0 (d ∷ cs) else from_digits 0 (c ∷ d ∷ cs)

abbrev pub unwrap_or : ℕ → Option ℕ → ℕ
unwrap_or n none = n
unwrap_or n (some m) = m

-- The loop over `versions.iter_mut().zip(release.split('.'))`.
abbrev pub fill : List ℕ → List (List ℕ) → List ℕ
fill [] pieces = []
fill (v ∷ vs) [] = v ∷ vs
fill (v ∷ vs) (s ∷ pieces) = unwrap_or 0 (parse s) ∷ fill vs pieces

-- `versions[i]`, of an array of three.
abbrev pub index : ℕ → List ℕ → ℕ
index i [] = 0
index zero (v ∷ vs) = v
index (suc i) (v ∷ vs) = index i vs

abbrev pub versions_of : List ℕ → ℕ × ℕ × ℕ
versions_of release =
    let versions = fill (0 ∷ 0 ∷ 0 ∷ []) (split release) in
    (index 0 versions, index 1 versions, index 2 versions)

abbrev pub unwrap : Option (List ℕ) → Outcome (ℕ × ℕ × ℕ)
unwrap none = panic
unwrap (some release) = ok (versions_of release)

unfoldable pub get_os_release : Sysctl → Outcome (ℕ × ℕ × ℕ)
get_os_release s = if s.failed then panic else unwrap (from_utf8 (take (text_end s.buf) s.buf))
