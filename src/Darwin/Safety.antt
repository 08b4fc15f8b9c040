-- ===== src/Darwin/Safety.antt =====
-- Which implementation the calls on Darwin use.
use valet_parking.Prelude.{
  ℕ, ◌≡◌, ◌⊎◌, inl, inr, Bool, true, false, leb, List, ◌++◌, ◌∷◌, arith, refl, ap, ◌∙◌,
}
use valet_parking.Prelude.Family.{update_elim}
use valet_parking.Futex.{Outcome, ok, err, panic}
use valet_parking.Darwin.Release.{get_os_release}
use valet_parking.Darwin.Text.{IsDigits, value, clamped, dotted, os_release_is_parsed}
use valet_parking.Darwin.System.{
  uninitialized, Operation, compare_and_wait, store_and_wake, park, unpark, Implementation, futex,
  posix, Pc, outside, loading, asking, storing, asking_again, calling, panicked, dispatch,
  has_ulock, asked, cached, System, moves, Step, calls, loads, asks, caches, returns, Reach, start,
  later,
}

-- The implementation for an answer of `has_ulock`.
abbrev pub implementation : Bool → Implementation
implementation true = futex
implementation false = posix

module _ (buf : List ℕ) where
  -- What a call of `get_os_release` that succeeds makes `has_ulock` answer.
  abbrev pub Answers : Bool → Type 0
  Answers b =
      (release : ℕ × ℕ × ℕ) × (get_os_release (record { failed = false; buf = buf }) ≡ ok release)
      × (b ≡ leb 16 release.0)

  abbrev Holds : Pc → Type 0
  Holds (storing op b) = Answers b
  Holds asking_again = Answers true
  Holds (calling op used) = (b : Bool) × Answers b × (used ≡ implementation b)
  Holds pc = Unit

  record Inv (s : System) : Type 0 where
    pub cache : (s.atomic ≡ uninitialized) ⊎ ((b : Bool) × Answers b × (s.atomic ≡ cached b))
    pub holds : (i : ℕ) → Holds (s.pc i)

  dispatch-Holds : (op : Operation) (b : Bool) → Answers b → Holds (dispatch op b)
  dispatch-Holds compare_and_wait true h = h
  dispatch-Holds store_and_wake true h = (true, h, refl)
  dispatch-Holds park true h = (true, h, refl)
  dispatch-Holds unpark true h = (true, h, refl)
  dispatch-Holds compare_and_wait false h = (false, h, refl)
  dispatch-Holds store_and_wake false h = (false, h, refl)
  dispatch-Holds park false h = (false, h, refl)
  dispatch-Holds unpark false h = (false, h, refl)

  moves-Inv : {s : System} (i : ℕ) (new : Pc) → Holds new → Inv s → Inv (moves s i new)
  moves-Inv {s} i new h inv = record {
    cache = inv.cache;
    holds = λ k. update_elim Holds s.pc i new k (λ same. h) (λ other. inv.holds k);
  }

  has_ulock-Holds :
      (a : ℕ) (pc : Pc)
      → (a ≡ uninitialized) ⊎ ((b : Bool) × Answers b × (a ≡ cached b))
      → Holds pc
      → Holds (has_ulock a pc)
  unfolding has_ulock
  has_ulock-Holds a (loading op) (inl empty) h = rw empty tt
  has_ulock-Holds a (loading op) (inr (true, answers, e)) h = rw e (dispatch-Holds op true answers)
  has_ulock-Holds a (loading op) (inr (false, answers, e)) h =
      rw e (dispatch-Holds op false answers)
  has_ulock-Holds a outside cache h = h
  has_ulock-Holds a (asking op) cache h = h
  has_ulock-Holds a (storing op b) cache h = h
  has_ulock-Holds a asking_again cache h = h
  has_ulock-Holds a (calling op used) cache h = h
  has_ulock-Holds a panicked cache h = h

  err-Holds : (pc : Pc) → Holds pc → Holds (asked err pc)
  unfolding asked
  err-Holds outside h = h
  err-Holds (loading op) h = h
  err-Holds (asking op) h = tt
  err-Holds (storing op b) h = h
  err-Holds asking_again h = tt
  err-Holds (calling op used) h = h
  err-Holds panicked h = h

  panic-Holds : (pc : Pc) → Holds pc → Holds (asked panic pc)
  unfolding asked
  panic-Holds outside h = h
  panic-Holds (loading op) h = h
  panic-Holds (asking op) h = tt
  panic-Holds (storing op b) h = h
  panic-Holds asking_again h = tt
  panic-Holds (calling op used) h = h
  panic-Holds panicked h = h

  ok-Holds :
      (release : ℕ × ℕ × ℕ) (pc : Pc)
      → get_os_release (record { failed = false; buf = buf }) ≡ ok release
      → Holds pc
      → Holds (asked (ok release) pc)
  unfolding asked
  ok-Holds release outside e h = h
  ok-Holds release (loading op) e h = h
  ok-Holds release (asking op) e h = (release, e, refl)
  ok-Holds release (storing op b) e h = h
  ok-Holds release asking_again e h = (true, h, refl)
  ok-Holds release (calling op used) e h = h
  ok-Holds release panicked e h = h

  asked-Holds :
      (failed : Bool) (o : Outcome (ℕ × ℕ × ℕ)) (pc : Pc)
      → get_os_release (record { failed = failed; buf = buf }) ≡ o
      → Holds pc
      → Holds (asked o pc)
  unfolding get_os_release
  asked-Holds true (ok release) pc e h = absurd (ground arith)
  asked-Holds false (ok release) pc e h = ok-Holds release pc e h
  asked-Holds failed err pc e h = err-Holds pc h
  asked-Holds failed panic pc e h = panic-Holds pc h

  Step-Inv : {s u : System} → Step buf s u → Inv s → Inv u
  Step-Inv (calls i op w) inv = moves-Inv i _ tt inv
  Step-Inv {s} (loads i) inv =
      moves-Inv i _ (has_ulock-Holds s.atomic (s.pc i) inv.cache (inv.holds i)) inv
  Step-Inv {s} (asks i failed) inv =
      moves-Inv i _ (asked-Holds failed _ (s.pc i) refl (inv.holds i)) inv
  Step-Inv {s} (caches i op answer w) inv =
      let answers : Answers answer = rw w at (inv.holds i) in
      record {
        cache = inr (answer, answers, refl);
        holds = λ k.
            update_elim Holds s.pc i (dispatch op answer) k
              (λ same. dispatch-Holds op answer answers) (λ other. inv.holds k);
      }
  Step-Inv (returns i w) inv = moves-Inv i outside tt inv

  Reach-Inv : {s : System} → Reach buf s → Inv s
  Reach-Inv start = record { cache = inl refl; holds = λ i. tt }
  Reach-Inv (later r step) = Step-Inv step (Reach-Inv r)

  pub darwin_call-Answers :
      {s : System} (i : ℕ) {op : Operation} {used : Implementation}
      → Reach buf s
      → s.pc i ≡ calling op used
      → (b : Bool) × Answers b × (used ≡ implementation b)
  darwin_call-Answers i r w = rw w at ((Reach-Inv r).holds i)

-- If the text of the release is three decimal numbers with dots between them and a 0 behind, then
-- whenever a thread on Darwin is in a call of an implementation, whatever other threads do and
-- whichever calls of sysctl fail, it is the one over ulock if the first number is at least 16 and
-- at most 65535, and the one over posix otherwise; so all threads use the same.
pub darwin_follows_release :
    (major minor patch rest : List ℕ)
    → IsDigits major
    → IsDigits minor
    → IsDigits patch
    → {s : System} (i : ℕ) {op : Operation} {used : Implementation}
    → Reach (dotted major (dotted minor patch) ++ (0 ∷ rest)) s
    → s.pc i ≡ calling op used
    → used ≡ implementation (leb 16 (clamped (value 0 major)))
darwin_follows_release major minor patch rest a b c i r w =
    let (answer, (release, e, is), same) = darwin_call-Answers _ i r w in
    let (text, _) = os_release_is_parsed major minor patch rest a b c in
    let first : release.0 ≡ clamped (value 0 major) = cc in
    same ∙ ap implementation (is ∙ ap (leb 16) first)
