-- ===== src/Keyed/Waiters/System.antt =====
-- A bounded number of threads that wait on one atomic, and that store to it and wake the others.
use valet_parking.Prelude.{ℕ, suc, ◌<◌, ◌≡◌, Bool, false, true}
use valet_parking.Prelude.Family.{update}
use valet_parking.Word.{Target}
use valet_parking.Reserved.{IsFree}
use valet_parking.Keyed.Waiters.{
  Pc, outside, loading, trying, entering, blocked, swapping, releasing, pub_bits, compare_and_wait,
  store_and_wake, release_keyed_events, wait_ends,
}

-- `registered` is no part of the program: it marks the threads that have counted themselves since the
-- last `swap`, or the last write of the caller's own.
pub record System : Type 0 where
  pub atomic : ℕ
  pub pc : ℕ → Pc
  pub registered : ℕ → Bool

abbrev pub init : ℕ → System
init a = record { atomic = a; pc = λ _. outside; registered = λ _. false }

abbrev pub moves : System → ℕ → Pc → System
moves s i pc = record s { pc = update s.pc i pc }

-- The thread has just counted itself.
abbrev pub marks : Pc → Pc → Bool → Bool
marks (trying e c) (entering f) old = true
marks pc new old = old

-- A round of a release meets a wait.
abbrev pub meets : System → ℕ → ℕ → System
meets s i k = record s {
  pc = update (update s.pc k (wait_ends (s.pc k))) i (release_keyed_events (s.pc i));
}

module _ (t : Target) (threads : ℕ) where
  abbrev pub compares : System → ℕ → System
  compares s i = record {
    atomic = (compare_and_wait t s.atomic (s.pc i)).atomic;
    pc = update s.pc i (compare_and_wait t s.atomic (s.pc i)).pc;
    registered =
        update s.registered i
          (marks (s.pc i) (compare_and_wait t s.atomic (s.pc i)).pc (s.registered i));
  }

  abbrev pub swaps : System → ℕ → System
  swaps s i = record {
    atomic = (store_and_wake t s.atomic (s.pc i)).atomic;
    pc = update s.pc i (store_and_wake t s.atomic (s.pc i)).pc;
    registered = λ _. false;
  }

  -- The steps of calls that are under way, but for the ends of waits and releases that do not meet.
  pub data Own (s : System) : System → Type 0 where
    comparing : (i : ℕ) → Own s (compares s i)
    storing : (i : ℕ) {new : ℕ} → s.pc i ≡ swapping new → Own s (swaps s i)
    meeting :
        (i k : ℕ) {left e : ℕ}
        → s.pc i ≡ releasing (suc left)
        → s.pc k ≡ blocked e
        → Own s (meets s i k)
    ends : (i : ℕ) → s.pc i ≡ releasing 0 → Own s (moves s i (release_keyed_events (s.pc i)))

  pub data Step (s : System) : System → Type 0 where
    own : {u : System} → Own s u → Step s u
    -- `Waiters::compare_and_wait` and `Waiters::store_and_wake`
    call_wait :
        (i expected : ℕ)
        → s.pc i ≡ outside
        → i < threads
        → Step s (moves s i (loading (pub_bits t expected)))
    call_store : (i new : ℕ) → s.pc i ≡ outside → IsFree t new → Step s (moves s i (swapping new))
    -- A caller may use the atomic itself: from a value with no reserved bit to another.
    exchanges :
        (i new : ℕ)
        → s.pc i ≡ outside
        → IsFree t s.atomic
        → IsFree t new
        → Step s (record s { atomic = new; registered = λ _. false })
    wait_ending : (i : ℕ) → Step s (moves s i (wait_ends (s.pc i)))
    gives_up :
        (i : ℕ) {left : ℕ}
        → s.pc i ≡ releasing (suc left)
        → Step s (moves s i (release_keyed_events (s.pc i)))

  pub data Reach : System → Type 0 where
    start : (a : ℕ) → IsFree t a → Reach (init a)
    later : {s u : System} → Reach s → Step s u → Reach u

  -- A run of calls that are under way.
  pub data Run : System → System → Type 0 where
    done : (s : System) → Run s s
    next : {s u v : System} → Own s u → Run u v → Run s v
