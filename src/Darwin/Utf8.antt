-- ===== src/Darwin/Utf8.antt =====
-- `str::from_utf8`: which bytes are text.
use valet_parking.Prelude.{
  ℕ, zero, suc, Bool, true, false, leb, ◌==◌, ◌&&◌, if◌then◌else◌, List, [], ◌∷◌, Option, none,
  some,
}

-- Between two characters, or with so many bytes to go, the next of them in a range.
pub data State : Type 0 where
  ready : State
  need : (more lo hi : ℕ) → State
  invalid : State

abbrev between : ℕ → ℕ → ℕ → Bool
between lo hi b = leb lo b && leb b hi

-- The first byte of a character.
abbrev pub first : ℕ → State
first b =
    if between 0 127 b
    then ready
    else if between 194 223 b
    then need 0 128 191
    else if b == 224
    then need 1 160 191
    else if b == 237
    then need 1 128 159
    else if between 225 239 b
    then need 1 128 191
    else if b == 240
    then need 2 144 191
    else if between 241 243 b
    then need 2 128 191
    else if b == 244
    then need 2 128 143
    else invalid

abbrev pub after : State → ℕ → State
after ready b = first b
after (need zero lo hi) b = if between lo hi b then ready else invalid
after (need (suc more) lo hi) b = if between lo hi b then need more 128 191 else invalid
after invalid b = invalid

abbrev pub is_complete : State → Bool
is_complete ready = true
is_complete s = false

abbrev pub scan : State → List ℕ → State
scan s [] = s
scan s (b ∷ bs) = scan (after s b) bs

unfoldable pub from_utf8 : List ℕ → Option (List ℕ)
from_utf8 bytes = if is_complete (scan ready bytes) then some bytes else none
