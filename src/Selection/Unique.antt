-- ===== src/Selection/Unique.antt =====
-- Which targets have an implementation.
use valet_parking.Prelude.{Bool-cases, if◌then◌else◌}
use valet_parking.Prelude.{◌≡◌, ◌≢◌, ◌⊎◌, ◌↔◌, Bool, true, false, [], ◌∷◌, arith, refl, inl, inr}
use valet_parking.Selection.{
  Os, ios, macos, windows, other_unix, other, Config, Implementation, use_futex, use_windows,
  use_darwin, use_posix, use_fortanix, imp,
}

-- Fortanix SGX and WebAssembly are none of the systems with a name, and not each other.
pub record IsCoherent (c : Config) : Type 0 where
  pub sgx : c.fortanix ≡ true → (c.target_os ≡ other) × (c.wasm_atomics ≡ false)
  pub wasm : c.wasm_atomics ≡ true → c.target_os ≡ other

-- An operating system that the source names or of the Unix family, or Fortanix SGX, or WebAssembly with
-- atomics and without the fallback.
abbrev pub IsSupported : Config → Type 0
IsSupported c =
    (c.target_os ≢ other) ⊎ (c.fortanix ≡ true) ⊎ ((c.wasm_atomics ≡ true) × (c.fallback ≡ false))

-- The implementation that is meant for a target.
abbrev pub choice : Os → (fortanix fallback : Bool) → Implementation
choice windows fortanix fallback = use_windows
choice other_unix fortanix fallback = use_posix
choice other fortanix fallback = if fortanix then use_fortanix else use_futex
choice ios fortanix fallback = if fallback then use_posix else use_darwin
choice macos fortanix fallback = if fallback then use_posix else use_darwin
choice os fortanix fallback = if fallback then use_posix else use_futex

abbrev pub config : Os → (wasm_atomics fortanix fallback : Bool) → Config
config os w f b = record { target_os = os; wasm_atomics = w; fortanix = f; fallback = b }

named_imp :
    (os : Os) (b : Bool) → os ≢ other → imp (config os false false b) ≡ choice os false b ∷ []
unfolding imp
named_imp other b named = absurd (named refl)
named_imp os true named = refl
named_imp os false named = refl

-- A named system is no place for the other two.
plain :
    {c : Config}
    → IsCoherent c
    → c.target_os ≢ other
    → (c.wasm_atomics ≡ false) × (c.fortanix ≡ false)
plain {c} is named = (
  elim (Bool-cases c.wasm_atomics) [ inl w ↦ absurd (named (is.wasm w)) | inr w ↦ w ],
  elim (Bool-cases c.fortanix) [ inl f ↦ absurd (named (is.sgx f).0) | inr f ↦ f ],
)

IsSupported-imp :
    (os : Os) (w f b : Bool)
    → IsCoherent (config os w f b)
    → IsSupported (config os w f b)
    → imp (config os w f b) ≡ choice os f b ∷ []
unfolding imp
IsSupported-imp os w f b is (inl named) =
    let (w', f') = plain is named in rw w' (rw f' (named_imp os b named))
IsSupported-imp os w f b is (inr (inl sgx)) =
    let (os', w') = is.sgx sgx in rw os' (rw w' (rw sgx refl))
IsSupported-imp os w f b is (inr (inr (wasm, no_fallback))) =
    let f' : f ≡ false = elim (Bool-cases f) [
      | inl x ↦ absurd (ground (arith, is.sgx x))
      | inr x ↦ x
    ] in
    rw (is.wasm wasm) (rw wasm (rw f' (rw no_fallback refl)))

imp-IsSupported :
    (os : Os) (w f b : Bool)
    → imp (config os w f b) ≡ choice os f b ∷ []
    → IsSupported (config os w f b)
unfolding imp
imp-IsSupported other w true b e = inr (inl refl)
imp-IsSupported other true false false e = inr (inr (refl, refl))
imp-IsSupported other true false true e = absurd (ground arith)
imp-IsSupported other false false true e = absurd (ground arith)
imp-IsSupported other false false false e = absurd (ground arith)
imp-IsSupported os w f b e = inl (λ x. ground (arith, x))

-- For a target on which Fortanix SGX and WebAssembly are none of the systems with a name, and not
-- each other: there is exactly one implementation under the name imp, and it is the one meant for
-- the target, exactly when the operating system is one that the source names or of the Unix
-- family, or the target is Fortanix SGX, or it is WebAssembly with atomics and without the
-- fallback.
pub imp_is_unique :
    (c : Config)
    → IsCoherent c
    → IsSupported c ↔ (imp c ≡ choice c.target_os c.fortanix c.fallback ∷ [])
imp_is_unique c is = (
  IsSupported-imp c.target_os c.wasm_atomics c.fortanix c.fallback is,
  imp-IsSupported c.target_os c.wasm_atomics c.fortanix c.fallback,
)
