-- ===== src/PosixParker/System.antt =====
-- One thread that parks, any number that unpark it, and the memory that they share.
use valet_parking.Prelude.{ℕ, ◌%◌, ◌<◌, ◌≡◌, Bool, true, false, ◌&&◌, ◌==◌}
use valet_parking.Prelude.Family.{update}
use valet_parking.Word.{Target, usize_mod, shr_usize}
use valet_parking.Reserved.{free_bits}
use valet_parking.PosixParker.{
  Waiting, ParkPc, outside, locking, loading, entering, blocked, relocking, woken, unlocking,
  destroying, finishing, panicked, UnparkPc, idle, locking_at, holding, signalling, releasing, park,
  unpark, clear_ptr, signal,
}

pub data Mutex : Type 0 where
  free by_parker by_unparker : Mutex

-- `addr` is where the `PosixParker` of the current or latest call of `park` lies, and `mutex` the
-- mutex in it. `limits` says whether calls of `park` may have a timeout, and `faulted` whether a
-- pthread call was given a pointer into a `PosixParker` that no longer is.
pub record System : Type 0 where
  pub atomic : ℕ
  pub parker : ParkPc
  pub unparker : ℕ → UnparkPc
  pub addr : ℕ
  pub mutex : Mutex
  pub limits : Bool
  pub faulted : Bool

-- `#[repr(align(64))]`, and no object lies at the null pointer.
pub record IsAddress (t : Target) (a : ℕ) : Type 0 where
  pub aligned : a % 64 ≡ 0
  pub nonnull : 0 < a
  pub fits : a < usize_mod t

abbrev pub init : Bool → ℕ → System
init limits addr = record {
  atomic = 0;
  parker = outside;
  unparker = λ _. idle;
  addr = addr;
  mutex = free;
  limits = limits;
  faulted = false;
}

-- The mutex and the condition variable live up to the calls that destroy them.
abbrev pub lives : ParkPc → Bool
lives outside = false
lives destroying = false
lives finishing = false
lives panicked = false
lives pc = true

abbrev pub alive : System → ℕ → Bool
alive s p = lives s.parker && s.addr == p

-- The pointer that the next pthread call of a thread is given.
abbrev pub Uses : UnparkPc → ℕ → Type 0
Uses (locking_at q) p = q ≡ p
Uses (signalling q) p = q ≡ p
Uses (releasing q) p = q ≡ p
Uses pc p = ⊥

module _ (t : Target) (debug : Bool) where
  abbrev pub parks : System → System
  parks s = record s {
    atomic = (park t debug (shr_usize s.addr free_bits) s.atomic s.parker).atomic;
    parker = (park t debug (shr_usize s.addr free_bits) s.atomic s.parker).pc;
  }

  abbrev pub unparks_by : ℕ → System → System
  unparks_by i s = record s {
    atomic = (unpark t s.atomic).atomic;
    unparker = update s.unparker i (unpark t s.atomic).pc;
  }

  pub data Step (s : System) : System → Type 0 where
    -- the thread in `park`
    call_park :
        (limit : Bool) (a : ℕ)
        → s.parker ≡ outside
        → IsAddress t a
        → (limit ≡ true → s.limits ≡ true)
        → Step s (record s { parker = locking limit; addr = a; mutex = free })
    park_locks :
        {limit : Bool}
        → s.parker ≡ locking limit
        → s.mutex ≡ free
        → Step s (record s { parker = loading limit; mutex = by_parker })
    park_accesses : Step s (parks s)
    park_blocks :
        {w : Waiting}
        → s.parker ≡ entering w
        → Step s (record s { parker = blocked w; mutex = free })
    -- a spurious wakeup, or the end of the time limit
    wakes_early : Step s (record s { parker = signal s.parker })
    park_relocks :
        {w : Waiting}
        → s.parker ≡ relocking w
        → s.mutex ≡ free
        → Step s (record s { parker = woken w; mutex = by_parker })
    park_unlocks : s.parker ≡ unlocking → Step s (record s { parker = destroying; mutex = free })
    park_destroys : s.parker ≡ destroying → Step s (record s { parker = finishing })
    -- the threads in `unpark`
    call_unpark : (i : ℕ) → s.unparker i ≡ idle → Step s (unparks_by i s)
    unpark_locks :
        (i : ℕ) {p : ℕ}
        → s.unparker i ≡ locking_at p
        → alive s p ≡ true
        → s.mutex ≡ free
        → Step s (record s { unparker = update s.unparker i (holding p); mutex = by_unparker })
    unpark_clears :
        (i : ℕ) {p : ℕ}
        → s.unparker i ≡ holding p
        → Step s (record s {
          atomic = clear_ptr t s.atomic;
          unparker = update s.unparker i (signalling p);
        })
    unpark_signals :
        (i : ℕ) {p : ℕ}
        → s.unparker i ≡ signalling p
        → alive s p ≡ true
        → Step s
            (record s { parker = signal s.parker; unparker = update s.unparker i (releasing p) })
    unpark_unlocks :
        (i : ℕ) {p : ℕ}
        → s.unparker i ≡ releasing p
        → alive s p ≡ true
        → Step s (record s { unparker = update s.unparker i idle; mutex = free })
    -- a pthread call on memory that is gone
    dangles :
        (i p : ℕ) → Uses (s.unparker i) p → alive s p ≡ false → Step s (record s { faulted = true })

  pub data Reach (limits : Bool) : System → Type 0 where
    start : (a : ℕ) → IsAddress t a → Reach limits (init limits a)
    later : {s u : System} → Reach limits s → Step s u → Reach limits u
