-- ===== src/Selection.antt =====
-- src/lib.rs, the implementation that is compiled in for a target, by the `cfg` attributes.
pub mod Unique
mod Examples
use valet_parking.Prelude.{Bool, true, false, ◌&&◌, ◌||◌, not, List, [], ◌∷◌, ◌++◌, if◌then◌else◌}

-- `target_os`. The others are of the Unix family or not.
pub data Os : Type 0 where
  android : Os
  dragonfly : Os
  freebsd : Os
  fuchsia : Os
  linux : Os
  ios : Os
  macos : Os
  openbsd : Os
  redox : Os
  windows : Os
  other_unix : Os
  other : Os

pub record Config : Type 0 where
  pub target_os : Os
  pub wasm_atomics : Bool  -- `target_arch = "wasm32"` and `target_feature = "atomics"`
  pub fortanix : Bool  -- `target_vendor = "fortanix"`
  pub fallback : Bool  -- `feature = "fallback"`

pub data Implementation : Type 0 where
  use_futex : Implementation
  use_windows : Implementation
  use_darwin : Implementation
  use_posix : Implementation
  use_fortanix : Implementation

abbrev is_windows : Os → Bool
is_windows windows = true
is_windows os = false

abbrev is_unix : Os → Bool
is_unix windows = false
is_unix other = false
is_unix os = true

abbrev is_darwin : Os → Bool
is_darwin ios = true
is_darwin macos = true
is_darwin os = false

-- The systems where the futex interface is always available.
abbrev has_futex : Os → Bool
has_futex android = true
has_futex dragonfly = true
has_futex freebsd = true
has_futex fuchsia = true
has_futex linux = true
has_futex openbsd = true
has_futex redox = true
has_futex os = false

-- `use … as imp`, under its condition.
abbrev under : Bool → Implementation → List Implementation
under b i = if b then i ∷ [] else []

-- All implementations that are named `imp`.
unfoldable pub imp : Config → List Implementation
imp c =
    under ((has_futex c.target_os || c.wasm_atomics) && not c.fallback) use_futex
    ++ under (is_windows c.target_os) use_windows
    ++ under (is_darwin c.target_os && not c.fallback) use_darwin
    ++ under
        (is_unix c.target_os
          && (not (has_futex c.target_os || is_darwin c.target_os) || c.fallback))
        use_posix
    ++ under c.fortanix use_fortanix
