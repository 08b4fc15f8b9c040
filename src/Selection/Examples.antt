-- ===== src/Selection/Examples.antt =====
-- Targets and what is compiled in for them.
use valet_parking.Prelude.{◌≡◌, ◌↔◌, true, false, [], ◌∷◌, refl, arith}
use valet_parking.Selection.{linux, other_unix, other, use_futex, use_posix, imp}
use valet_parking.Selection.Unique.{IsCoherent, IsSupported, config, imp_is_unique}

linux-IsCoherent : IsCoherent (config linux false false true)
linux-IsCoherent = record {
  sgx = λ e. absurd (ground (arith, e));
  wasm = λ e. absurd (ground (arith, e));
}

-- Linux with the fallback.
imp_is_unique_example :
    IsSupported (config linux false false true)
    ↔ (imp (config linux false false true) ≡ use_posix ∷ [])
imp_is_unique_example = imp_is_unique (config linux false false true) linux-IsCoherent

-- A target that is of the Unix family and WebAssembly with atomics has two.
two_imps : imp (config other_unix true false false) ≡ use_futex ∷ use_posix ∷ []
unfolding imp
two_imps = refl

-- WebAssembly with atomics and the fallback has none.
no_imp : imp (config other true false true) ≡ []
unfolding imp
no_imp = refl
