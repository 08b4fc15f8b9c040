-- ===== src/PosixParker/Invariant.antt =====
-- What holds in every reachable state in which no call of `park` has a time limit.
use valet_parking.Prelude.{
  ℕ, ◌+◌, ◌≤◌, ◌≡◌, ◌≢◌, ◌⊎◌, Bool, true, false, Option, none, some, refl, arith,
}
use valet_parking.Prelude.Family.{update}
use valet_parking.Word.{Target, shr_usize}
use valet_parking.PosixParker.{
  untimed, ParkPc, outside, locking, loading, trying, entering, blocked, relocking, woken,
  unlocking, destroying, finishing, UnparkPc, idle, locking_at, holding, signalling, releasing,
}
use valet_parking.PosixParker.System.{Mutex, free, by_parker, by_unparker, System, IsAddress}

-- The thread that is past the `fetch_or` of an `unpark` that found a thread to wake.
abbrev pub active : (ℕ → UnparkPc) → Option ℕ → UnparkPc
active unparker none = idle
active unparker (some i) = unparker i

pub active-update :
    (f : ℕ → UnparkPc) (i : ℕ) (p : UnparkPc) (who : Option ℕ)
    → f i ≡ p
    → active (update f i p) who ≡ active f who
active-update f i p none e = refl
active-update f i p (some j) e = ground arith

-- A thread that is busy is the active one.
pub active_lem : (f : ℕ → UnparkPc) (i : ℕ) (who : Option ℕ) → who ≡ some i → active f who ≡ f i
active_lem f i who e = rw e

pub active-update_self :
    (f : ℕ → UnparkPc) (i : ℕ) (p : UnparkPc) (who : Option ℕ)
    → who ≡ some i
    → active (update f i p) who ≡ p
active-update_self f i p who e = rw e (ground arith)

-- The thread that makes `active` what it is.
pub active_who :
    (f : ℕ → UnparkPc) (who : Option ℕ) (q : UnparkPc)
    → active f who ≡ q
    → q ≢ idle
    → (i : ℕ) × (f i ≡ q)
active_who f none q e busy = absurd (ground arith)
active_who f (some i) q e busy = (i, e)

-- The mutex is held by a thread in `unpark` just while it stands between its lock and its unlock.
abbrev pub Holds : Mutex → UnparkPc → Type 0
Holds m idle = m ≢ by_unparker
Holds m (locking_at p) = m ≢ by_unparker
Holds m (holding p) = m ≡ by_unparker
Holds m (signalling p) = m ≡ by_unparker
Holds m (releasing p) = m ≡ by_unparker

-- The state table of the source: the word, while the pointer of the thread is there to be read. The
-- flag says whether the thread may have been notified already.
abbrev pub Published : (addr a : ℕ) (left : Bool) → UnparkPc → Type 0
Published addr a left idle = (a ≡ shr_usize addr 5) ⊎ ((a ≡ 1) × (left ≡ true))
Published addr a left (locking_at p) = (a ≡ shr_usize addr 5 + 1) × (p ≡ addr)
Published addr a left (holding p) = (a ≡ shr_usize addr 5 + 1) × (p ≡ addr)
Published addr a left (signalling p) = (a ≡ 1) × (p ≡ addr)
Published addr a left (releasing p) = (a ≡ 1) × (p ≡ addr) × (left ≡ true)

-- The word, the mutex and the active `unpark` that go with each place in `park`.
abbrev pub Agrees : (addr a : ℕ) → Mutex → ParkPc → UnparkPc → Type 0
Agrees addr a m outside u = (a ≤ 1) × (u ≡ idle)
Agrees addr a m (locking limit) u = (a ≤ 1) × (u ≡ idle) × (limit ≡ false) × (m ≡ free)
Agrees addr a m (loading limit) u = (a ≤ 1) × (u ≡ idle) × (limit ≡ false) × (m ≡ by_parker)
Agrees addr a m (trying limit c) u =
    (a ≤ 1) × (u ≡ idle) × (limit ≡ false) × (m ≡ by_parker) × (c ≤ a)
Agrees addr a m (entering untimed) u = Published addr a false u × (m ≡ by_parker)
Agrees addr a m (blocked untimed) u = Published addr a false u × (m ≢ by_parker)
Agrees addr a m (relocking untimed) u = Published addr a true u × (m ≢ by_parker)
Agrees addr a m (woken untimed) u = Published addr a true u × (m ≡ by_parker)
Agrees addr a m unlocking u = (a ≡ 1) × (u ≡ idle) × (m ≡ by_parker)
Agrees addr a m destroying u = (a ≡ 1) × (u ≡ idle)
Agrees addr a m finishing u = (a ≡ 1) × (u ≡ idle)
Agrees addr a m pc u = ⊥

pub record Inv (t : Target) (s : System) : Type 0 where
  pub no_limits : s.limits ≡ false
  pub no_fault : s.faulted ≡ false
  pub address : IsAddress t s.addr
  pub who : Option ℕ
  pub only : (i : ℕ) → s.unparker i ≢ idle → who ≡ some i
  pub holds : Holds s.mutex (active s.unparker who)
  pub agrees : Agrees s.addr s.atomic s.mutex s.parker (active s.unparker who)
